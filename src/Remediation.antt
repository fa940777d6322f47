-- ===== src/Remediation.antt =====
-- ui/app/remediation/page.tsx: restarts of services that a host's policy allows. As for backups, a
-- preview needs the operator's password and gives an approval token, which the restart sends back.
-- The screen is in `Screen`.
pub mod Screen
pub mod Single
pub mod Restarts
use sysadmin_mcp_assisstant.Prelude.{
  ℕ, String, Bool, true, false, ◌||◌, not, List, [], ◌∷◌, Option, none, some, find, first, is_empty,
  any, opt_map, or_else, ◌==◌,
}
use sysadmin_mcp_assisstant.Task.{
  message_of, Json, text, object, field, close, Code, ok, pure, ◌>>=◌, ◌>>◌, ite, expect,
  await_json, attempt,
}
use sysadmin_mcp_assisstant.Http.{World, Body, api_fetch}
use sysadmin_mcp_assisstant.Page.{set_page, require_ok, store_csrf, parsed, guarded}

pub record ActionSet : Type 0 where
  pub host : String
  pub restart_services : List String

pub record Result : Type 0 where
  pub command : List String
  pub stdout : String
  pub stderr : String
  pub exit_status : ℕ
  pub truncated : Bool

pub record Preview : Type 0 where
  pub approval_token : String
  pub expires_in_seconds : ℕ
  pub host : String
  pub service : String
  pub effect : String
  pub before : Result

pub record Outcome : Type 0 where
  pub host : String
  pub service : String
  pub action : Result
  pub after : Result
  pub verified : Bool

pub record Remediation : Type 0 where
  pub actions : List ActionSet
  pub host : String
  pub service : String
  pub password : String
  pub preview : Option Preview
  pub outcome : Option Outcome
  pub busy : Bool
  pub error : String

unfoldable pub initial : Remediation
initial = record {
  actions = [];
  host = "";
  service = "";
  password = "";
  preview = none;
  outcome = none;
  busy = false;
  error = "";
}

pub data Data : Type 0 where
  identity : String → Data
  action_sets : List ActionSet → Data
  previewed : Preview → Data
  restarted : Outcome → Data

abbrev identity_of : Data → Option String
identity_of (identity token) = some token
identity_of d = none

abbrev sets_of : Data → Option (List ActionSet)
sets_of (action_sets xs) = some xs
sets_of d = none

abbrev pub preview_of : Data → Option Preview
preview_of (previewed p) = some p
preview_of d = none

abbrev pub outcome_of : Data → Option Outcome
outcome_of (restarted o) = some o
outcome_of d = none

abbrev pub State : Type 0
State = World Remediation

abbrev Reads : Type 0 → Type 0
Reads A = Code State (Body Data) A

-- `actions.find(x => x.host === host)?.restart_services`
unfoldable pub services_of : List ActionSet → String → List String
services_of sets host =
    or_else (opt_map (λ x. x.restart_services) (find (λ x. x.host == host) sets)) []

abbrev pub has_services : ActionSet → Bool
has_services x = not (is_empty x.restart_services)

abbrev initial_host : List ActionSet → String
initial_host sets =
    or_else (opt_map (λ x. x.host) (find has_services sets))
      (or_else (opt_map (λ x. x.host) (first sets)) "")

abbrev first_service : Option (List String) → String
first_service none = ""
first_service (some xs) = or_else (first xs) ""

unfoldable pub mount : Reads (Unit {0})
mount =
    attempt
      (do
        me ← api_fetch "/api/auth/me" none none
        ite (not (ok me)) (pure tt) (do
          body ← await_json me
          token ← expect (identity_of body.value)
          store_csrf token
          response ← api_fetch "/api/remediation/actions" none none
          data_ ← parsed response "Could not load remediation policy."
          sets ← expect (sets_of data_.value)
          set_page (λ p. record p {
            actions = sets;
            host = initial_host sets;
            service = first_service (opt_map (λ x. x.restart_services) (find has_services sets));
          })))
      (λ reason. set_page (λ p. record p { error = message_of reason "Agent API is offline." }))

-- `chooseHost` of the render that shows `c`, and so the handlers below.
unfoldable pub choose_host : String → Remediation → Reads (Unit {0})
unfolding services_of
choose_host value c = set_page (λ p. record p {
  host = value;
  service = or_else (first (services_of c.actions value)) "";
  preview = none;
  outcome = none;
})

abbrev pub preview_body : Remediation → Json
preview_body c = object (
    field "host" (text c.host)
      (field "service" (text c.service) (field "password" (text c.password) close)))

unfoldable pub create_preview : Remediation → Reads (Unit {0})
create_preview c = do
  set_page (λ p. record p { busy = true; error = ""; outcome = none })
  guarded
      (do
        response ←
            api_fetch "/api/remediation/restart/preview" (some "POST") (some (preview_body c))
        body ← await_json response
        set_page (λ p. record p { password = "" })
        require_ok (ok response) (or_else body.detail "Preview was denied.")
        found ← expect (preview_of body.value)
        set_page (λ p. record p { preview = some found }))
      (λ reason p. record p { error = message_of reason "Could not create approval." })
      (λ p. record p { busy = false })

abbrev pub execute_body : Preview → Json
execute_body p = object (field "approval_token" (text p.approval_token) close)

abbrev pub execute_on : Option Preview → Bool → Reads (Unit {0})
execute_on none busy = pure tt
execute_on (some q) busy = ite busy (pure tt) (do
  set_page (λ p. record p { busy = true; error = "" })
  guarded
      (do
        response ←
            api_fetch "/api/remediation/restart/execute" (some "POST") (some (execute_body q))
        data_ ← parsed response "Action was denied."
        found ← expect (outcome_of data_.value)
        set_page (λ p. record p { outcome = some found; preview = none }))
      (λ reason p. record p {
        error = message_of reason "Could not execute approved action.";
        preview = none;
      })
      (λ p. record p { busy = false }))

unfoldable pub execute : Remediation → Reads (Unit {0})
execute c = execute_on c.preview c.busy
