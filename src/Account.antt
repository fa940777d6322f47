-- ===== src/Account.antt =====
-- ui/app/account/page.tsx: the operator's sessions and recent activity. The text of a time is an
-- argument, `when` in the source.
pub mod Revocation
use sysadmin_mcp_assisstant.Prelude.{
  ℕ, String, Bool, true, false, ◌&&◌, ◌||◌, not, List, [], ◌∷◌, ◌++◌, Option, none, some, find,
  is_empty, opt_map, or_else, when, ◌==◌, if◌then◌else◌,
}
use sysadmin_mcp_assisstant.Prelude.Text.{is_blank, concat}
use sysadmin_mcp_assisstant.Task.{
  message_of, Json, text, object, field, close, Code, ok, pure, Task, start, ◌>>=◌, ◌>>◌, ite,
  expect, await_json, attempt, finally,
}
use sysadmin_mcp_assisstant.View.{Widget, alert, spinner, button, link}
use sysadmin_mcp_assisstant.Http.{World, Body, api_fetch}
use sysadmin_mcp_assisstant.Page.{set_page, require_ok, store_csrf, guarded}

pub record Identity : Type 0 where
  pub username : String
  pub role : String
  pub csrf_token : String

pub record Session : Type 0 where
  pub session_id : String
  pub client_label : String
  pub last_seen_at : String
  pub expires_at : String
  pub current : Bool

pub record Event : Type 0 where
  pub id : ℕ
  pub occurred_at : String
  pub event_type : String

pub record Account : Type 0 where
  pub identity : Option Identity
  pub sessions : List Session
  pub events : List Event
  pub busy : Bool
  pub error : String

unfoldable pub initial : Account
initial = record { identity = none; sessions = []; events = []; busy = true; error = "" }

abbrev pub labels : List (String × String)
labels =
    ("login_success", "Signed in")
    ∷ ("login_failure", "Failed sign-in")
    ∷ ("login_throttled", "Sign-in throttled")
    ∷ ("password_changed", "Password changed")
    ∷ ("logout", "Signed out")
    ∷ ("session_revoked", "Session revoked")
    ∷ ("session_expired", "Session expired")
    ∷ []

-- `labels[event.event_type] ?? event.event_type`
abbrev pub label_of : String → String
label_of kind = or_else (opt_map (λ x. x.1) (find (λ x. x.0 == kind) labels)) kind

pub data Data : Type 0 where
  nothing : Data
  operator : Identity → Data
  session_rows : List Session → Data
  event_rows : List Event → Data

abbrev pub identity_of : Data → Option Identity
identity_of (operator x) = some x
identity_of d = none

abbrev pub sessions_of : Data → Option (List Session)
sessions_of (session_rows xs) = some xs
sessions_of d = none

abbrev pub events_of : Data → Option (List Event)
events_of (event_rows xs) = some xs
events_of d = none

abbrev pub State : Type 0
State = World Account

abbrev Reads : Type 0 → Type 0
Reads A = Code State (Body Data) A

-- `Promise.all` is taken in the order of its members.
unfoldable pub load : Reads (Unit {0})
load = do
  set_page (λ p. record p { busy = true; error = "" })
  guarded
      (do
        me ← api_fetch "/api/auth/me" none none
        ite (not (ok me)) (pure tt) (do
          body ← await_json me
          who ← expect (identity_of body.value)
          store_csrf who.csrf_token
          set_page (λ p. record p { identity = some who })
          session_response ← api_fetch "/api/auth/sessions" none none
          event_response ← api_fetch "/api/auth/events?limit=30" none none
          require_ok (ok session_response && ok event_response)
              "Could not load account security data."
          found ← await_json session_response
          sessions ← expect (sessions_of found.value)
          set_page (λ p. record p { sessions = sessions })
          log ← await_json event_response
          events ← expect (events_of log.value)
          set_page (λ p. record p { events = events })))
      (λ reason p. record p { error = message_of reason "The local agent API is offline." })
      (λ p. record p { busy = false })

abbrev pub revoke_body : Session → Json
revoke_body x = object (field "session_id" (text x.session_id) close)

-- `agreed` is what the operator answers to `confirm`.
unfoldable pub revoke : Session → Bool → Reads (Unit {0})
revoke x agreed = ite (x.current || not agreed) (pure tt) (do
  set_page (λ p. record p { error = "" })
  response ← api_fetch "/api/auth/sessions/revoke" (some "POST") (some (revoke_body x))
  ite (not (ok response)) (set_page (λ p. record p { error = "Could not revoke that session." }))
      load)

pub data Act : Type 0 where
  first_render : Act
  end_session : Session → Bool → Act

-- A button that asks `confirm` stands here once for each of the two answers.
unfoldable pub sessions_view : (String → String) → List Session → List (Widget Act)
sessions_view when_ [] = []
sessions_view when_ (x ∷ xs) =
    Widget.text x.client_label ∷ when x.current (Widget.text "Current" ∷ [])
    ++ (Widget.text (
            concat
              ("Last active " ∷ when_ x.last_seen_at ∷ " · Expires " ∷ when_ x.expires_at ∷ []))
          ∷ when (not x.current) (
              button "Revoke" false (end_session x true)
              ∷ button "Revoke" false (end_session x false)
              ∷ [])
        ++ sessions_view when_ xs)

abbrev events_view : (String → String) → List Event → List (Widget Act)
events_view when_ [] = []
events_view when_ (e ∷ es) =
    Widget.text (label_of e.event_type) ∷ Widget.text (when_ e.occurred_at) ∷ events_view when_ es

abbrev identity_view : Option Identity → List (Widget Act)
identity_view none = []
identity_view (some x) = Widget.text x.username ∷ Widget.text x.role ∷ []

unfoldable pub account_view : (String → String) → Account → List (Widget Act)
account_view when_ p =
    Widget.text "Account security"
      ∷ Widget.text "Identity, sessions, and recent access activity"
      ∷ when (not (is_blank p.error)) (alert p.error ∷ [])
    ++ (if p.busy
        then spinner ∷ Widget.text "Loading account security…" ∷ []
        else Widget.text "Signed in as" ∷ identity_view p.identity
          ++ (Widget.text "Session policy"
                ∷ Widget.text "30 minutes idle · 8 hours maximum"
                ∷ Widget.text "Password"
                ∷ Widget.text "Use 12–256 characters."
                ∷ link "/change-password" "Change password"
                ∷ Widget.text "Active sessions"
                ∷ sessions_view when_ p.sessions
              ++ (Widget.text "Recent security activity"
                  ∷ (if is_empty p.events
                      then Widget.text "No security activity recorded." ∷ []
                      else events_view when_ p.events))))

unfoldable pub handle : Act → Account → Task State (Body Data)
handle first_render p = start load
handle (end_session x agreed) p = start (revoke x agreed)
