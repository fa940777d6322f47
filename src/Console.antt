-- ===== src/Console.antt =====
-- ui/app/page.tsx: the console, where an operator talks to the agent about one VM. The state is
-- that of the component `Home`; its refs stand beside it. The handlers are in `Load` and `Submit`,
-- what is shown in `Screen` and `Activity`; the other children prove what these do.
pub mod SessionId
pub mod Query
pub mod Load
pub mod Submit
pub mod Activity
pub mod Screen
pub mod Stream
pub mod Chunks
pub mod Form
pub mod Superseded
pub mod Hosts
pub mod Prompts
use sysadmin_mcp_assisstant.Prelude.{
  ℕ, String, Bool, List, Option, [], ◌∷◌, none, some, ◌==◌, if◌then◌else◌, false,
}
use sysadmin_mcp_assisstant.Task.{Code, Request}
use sysadmin_mcp_assisstant.Http.{World, Body}

pub record Host : Type 0 where
  pub name : String
  pub hostname : String
  pub allowed_logs : List String

pub record Result : Type 0 where
  pub command : List String
  pub stdout : String
  pub stderr : String
  pub exit_status : ℕ
  pub truncated : Bool

-- `Evt`; the debug `payload` and `direction` are only printed on the browser's console.
pub record Event : Type 0 where
  pub type : String
  pub message : Option String
  pub tool : Option String
  pub results : Option (List Result)
  pub summary : Option String
  pub session_id : Option String

pub data Role : Type 0 where
  user agent : Role

pub record Turn : Type 0 where
  pub role : Role
  pub content : Option String
  pub events : Option (List Event)

pub record Conversation : Type 0 where
  pub id : String
  pub title : String
  pub host : String
  pub provider : String

-- `role: 'user' | 'assistant'`
pub record SavedMessage : Type 0 where
  pub by_user : Bool
  pub content : String

pub record Provider : Type 0 where
  pub id : String
  pub label : String
  pub enabled : Bool
  pub configured : Bool

pub record Console : Type 0 where
  pub hosts : List Host
  pub host : String
  pub message : String
  pub turns : List Turn
  pub running : Bool
  pub online : Bool
  pub provider : String
  pub providers : List Provider
  pub session_id : String
  pub conversations : List Conversation
  pub loading_chat : Bool
  pub chat_error : String
  -- `selection.current` and `activeChats.current`
  pub selection : ℕ
  pub active_chats : List (String × String)
  -- `requested.get('host')` and `requested.get('chat')` of the page's query
  pub query_host : Option String
  pub query_chat : Option String
  -- what `crypto.getRandomValues` gives, call by call, and how often it was called
  pub random : ℕ → List ℕ
  pub drawn : ℕ

unfoldable pub initial : Option String → Option String → (ℕ → List ℕ) → Console
initial query_host query_chat random = record {
  hosts = [];
  host = "";
  message = "";
  turns = [];
  running = false;
  online = false;
  provider = "openai";
  providers = [];
  session_id = "";
  conversations = [];
  loading_chat = false;
  chat_error = "";
  selection = 0;
  active_chats = [];
  query_host = query_host;
  query_chat = query_chat;
  random = random;
  drawn = 0;
}

-- What the bodies hold that the page parses; a body of another shape is taken as a rejection.
pub data Data : Type 0 where
  identity : String → Data
  host_rows : List Host → Data
  provider_rows : List Provider → Data
  rows : List Conversation → Data
  saved : List SavedMessage → Data

abbrev pub State : Type 0
State = World Console

abbrev pub Reads : Type 0 → Type 0
Reads A = Code State (Body Data) A

-- The `Record<string, string>` of the chats that were open last, by host.
abbrev pub lookup : String → List (String × String) → Option String
lookup k [] = none
lookup k ((j, v) ∷ m) = if j == k then some v else lookup k m

abbrev pub insert : String → String → List (String × String) → List (String × String)
insert k v [] = (k, v) ∷ []
insert k v ((j, w) ∷ m) = if j == k then (k, v) ∷ m else (j, w) ∷ insert k v m
