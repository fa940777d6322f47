-- ===== src/Examples.antt =====
-- Concrete runs of the pages of ui/, with the data that they share.
mod Consoles
mod Gates
mod Vms
mod Backups
mod Modes
mod Connections
mod Saved
mod Accounts
mod Bars
mod Transactions
mod Jobs
mod Installations
mod Plans
mod Checks
use sysadmin_mcp_assisstant.Prelude.{
  ℕ, String, Bool, true, false, List, [], ◌∷◌, Option, none, some,
}
use sysadmin_mcp_assisstant.Task.{Settled, fulfilled, rejected, other}
use sysadmin_mcp_assisstant.Http.{Browser, World}
use sysadmin_mcp_assisstant.Console.{Console, Event, Host}
use sysadmin_mcp_assisstant.Console.Submit.{plain}

abbrev pub browser_at : String → Browser
browser_at path = record {
  has_window = true;
  protocol = "http:";
  hostname = "ops";
  path = path;
  api_url = none;
  csrf = some "t0";
  session_id = some "s0";
  visited = [];
}

abbrev pub at : {P : Type 0} → String → P → World P
at path p = record { browser = browser_at path; page = p }

-- A line that begins with a brace is an event.
abbrev pub parse_line : String → Settled Event
parse_line String.[] = rejected other
parse_line (String.◌∷◌ c s) = fulfilled (plain "summary" s)

-- A page with the VM `web` selected and a prompt typed.
abbrev pub ready_console : Console
ready_console = record {
  hosts = record { name = "web"; hostname = "10.0.0.1"; allowed_logs = [] } ∷ [];
  host = "web";
  message = "Check disk space";
  turns = [];
  running = false;
  online = true;
  provider = "openai";
  providers = [];
  session_id = "s1";
  conversations = [];
  loading_chat = false;
  chat_error = "";
  selection = 1;
  active_chats = [];
  query_host = none;
  query_chat = none;
  random = λ n. n ∷ n ∷ n ∷ n ∷ n ∷ n ∷ n ∷ n ∷ n ∷ n ∷ n ∷ n ∷ n ∷ n ∷ n ∷ n ∷ [];
  drawn = 0;
}
