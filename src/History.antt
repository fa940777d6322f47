-- ===== src/History.antt =====
-- ui/app/history/page.tsx: the saved conversations. `confirm` is an argument of the handlers. An
-- effect loads the conversation that is selected; its `current` is here the question whether its
-- number is still that of the latest run. The screen is in `Screen`.
pub mod Answers
pub mod Screen
pub mod Selection
pub mod Links
use sysadmin_mcp_assisstant.Prelude.{
  ℕ, suc, String, Bool, true, false, ◌&&◌, ◌||◌, not, List, [], ◌∷◌, Option, none, some, find,
  first, filter, is_empty, opt_map, or_else, eqb, ◌==◌,
}
use sysadmin_mcp_assisstant.Prelude.Text.{is_blank, concat, encode_uri_component}
use sysadmin_mcp_assisstant.Task.{
  message_of, Code, ok, pure, state, update, ◌>>=◌, ◌>>◌, ite, expect, await_json, attempt,
}
use sysadmin_mcp_assisstant.Http.{World, Body, api_fetch, on_browser}
use sysadmin_mcp_assisstant.Page.{set_page, require_ok, store_csrf, guarded}

pub record Session : Type 0 where
  pub id : String
  pub host : String
  pub provider : String
  pub title : String
  pub message_count : ℕ

pub record Message : Type 0 where
  pub role : String
  pub content : String

pub record History : Type 0 where
  pub sessions : List Session
  pub selected : String
  pub messages : List Message
  pub query : String
  pub host : String
  pub error : String
  pub deleting : Bool
  -- how often the second effect has run
  pub runs : ℕ

unfoldable pub initial : History
initial = record {
  sessions = [];
  selected = "";
  messages = [];
  query = "";
  host = "";
  error = "";
  deleting = false;
  runs = 0;
}

pub data Data : Type 0 where
  nothing : Data
  identity : String → Data
  session_rows : List Session → Data
  message_rows : List Message → Data

abbrev identity_of : Data → Option String
identity_of (identity token) = some token
identity_of d = none

abbrev sessions_of : Data → Option (List Session)
sessions_of (session_rows xs) = some xs
sessions_of d = none

abbrev pub messages_of : Data → Option (List Message)
messages_of (message_rows xs) = some xs
messages_of d = none

abbrev pub State : Type 0
State = World History

abbrev Reads : Type 0 → Type 0
Reads A = Code State (Body Data) A

-- `rows.find((row) => row.host === host)?.id ?? ''`
unfoldable pub first_of : String → List Session → String
first_of host rows = or_else (opt_map (λ r. r.id) (find (λ r. r.host == host) rows)) ""

-- The effect of the first render.
unfoldable pub mount : Reads (Unit {0})
unfolding first_of
mount =
    attempt
      (do
        response ← api_fetch "/api/auth/me" none none
        ite (not (ok response)) (pure tt) (do
          body ← await_json response
          token ← expect (identity_of body.value)
          store_csrf token
          history ← api_fetch "/api/chat/sessions" none none
          require_ok (ok history) "Could not load saved conversations."
          found ← await_json history
          rows ← expect (sessions_of found.value)
          let host = or_else (opt_map (λ r. r.host) (first rows)) ""
          set_page (λ h. record h { sessions = rows; host = host; selected = first_of host rows })))
      (λ _. set_page (λ h. record h {
        error = "The local agent API is offline. Start the backend and try again.";
      }))

abbrev if_current : ℕ → Reads (Unit {0}) → Reads (Unit {0})
if_current n m = do s ← state; ite (eqb n s.page.runs) m (pure tt)

abbrev pub session_path : String → String → String
session_path id host =
    concat ("/api/chat/sessions/" ∷ id ∷ "?host=" ∷ encode_uri_component host ∷ [])

-- The effect that runs whenever `selected` or `host` changes, with their new values; the cleanup
-- of the run before it is the change of the number.
unfoldable pub show : String → String → Reads (Unit {0})
show selected host = do
  set_page (λ h. record h { runs = suc h.runs; messages = [] })
  now ← state
  let n = now.page.runs
  ite (is_blank selected) (pure tt) (
      attempt
        (do
          response ← api_fetch (session_path selected host) none none
          require_ok (ok response) "Could not load this conversation."
          body ← await_json response
          rows ← expect (messages_of body.value)
          if_current n (set_page (λ h. record h { messages = rows })))
        (λ _.
          if_current n (set_page (λ h. record h { error = "Could not load this conversation." }))))

-- `remove` of the render that shows `c`, and so the handler below.
unfoldable pub remove : Session → Bool → History → Reads (Unit {0})
unfolding first_of
remove session agreed c = ite (not agreed) (pure tt) (do
  set_page (λ h. record h { deleting = true; error = "" })
  let remaining = filter (λ item. not (item.id == session.id)) c.sessions
  guarded
      (do
        response ← api_fetch (concat ("/api/chat/sessions/" ∷ session.id ∷ [])) (some "DELETE") none
        require_ok (ok response) "Could not delete this conversation."
        set_page (λ h. record h { sessions = remaining })
        ite (c.selected == session.id)
            (set_page (λ h. record h { selected = first_of c.host remaining })) (pure tt))
      (λ reason h. record h { error = message_of reason "Could not delete this conversation." })
      (λ h. record h { deleting = false }))

unfoldable pub remove_all : Bool → History → Reads (Unit {0})
remove_all agreed c = ite (is_empty c.sessions || not agreed) (pure tt) (do
  set_page (λ h. record h { deleting = true; error = "" })
  guarded
      (do
        response ← api_fetch "/api/chat/sessions" (some "DELETE") none
        require_ok (ok response) "Could not delete conversation history."
        set_page (λ h. record h { sessions = []; selected = ""; messages = [] })
        update (on_browser (λ b. record b { session_id = none })))
      (λ reason h. record h { error = message_of reason "Could not delete conversation history." })
      (λ h. record h { deleting = false }))

-- The VM filter.
unfoldable pub choose_host : String → History → Reads (Unit {0})
unfolding first_of
choose_host next c =
    set_page (λ h. record h { host = next; selected = first_of next c.sessions; messages = [] })
