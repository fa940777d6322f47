-- ===== src/Backups.antt =====
-- ui/app/backups/page.tsx: backup jobs. A preview, which needs the operator's password, gives an
-- approval token; executing the job sends the token back. The screen is in `Screen`.
pub mod Screen
pub mod Approval
pub mod Single
use sysadmin_mcp_assisstant.Prelude.{
  ℕ, String, Bool, true, false, ◌||◌, not, List, [], ◌∷◌, Option, none, some, find, first, is_empty,
  any, is_some, opt_map, or_else, ◌==◌,
}
use sysadmin_mcp_assisstant.Task.{
  message_of, Json, text, object, field, close, Code, ok, pure, ◌>>=◌, ◌>>◌, ite, expect,
  await_json, attempt,
}
use sysadmin_mcp_assisstant.Http.{World, Body, api_fetch}
use sysadmin_mcp_assisstant.Page.{set_page, require_ok, store_csrf, parsed, guarded}

pub record JobSet : Type 0 where
  pub host : String
  pub backup_jobs : List String

pub record Preview : Type 0 where
  pub approval_token : String
  pub expires_in_seconds : ℕ
  pub host : String
  pub job : String
  pub effect : String

pub record Result : Type 0 where
  pub stdout : String
  pub stderr : String
  pub exit_status : ℕ
  pub truncated : Bool

pub record Outcome : Type 0 where
  pub host : String
  pub job : String
  pub result : Result
  pub verified : Bool

pub record Backups : Type 0 where
  pub sets : List JobSet
  pub host : String
  pub job : String
  pub password : String
  pub preview : Option Preview
  pub outcome : Option Outcome
  pub busy : Bool
  pub error : String

unfoldable pub initial : Backups
initial = record {
  sets = [];
  host = "";
  job = "";
  password = "";
  preview = none;
  outcome = none;
  busy = false;
  error = "";
}

pub data Data : Type 0 where
  identity : String → Data
  job_sets : List JobSet → Data
  previewed : Preview → Data
  executed : Outcome → Data

abbrev identity_of : Data → Option String
identity_of (identity token) = some token
identity_of d = none

abbrev sets_of : Data → Option (List JobSet)
sets_of (job_sets xs) = some xs
sets_of d = none

abbrev pub preview_of : Data → Option Preview
preview_of (previewed p) = some p
preview_of d = none

abbrev pub outcome_of : Data → Option Outcome
outcome_of (executed o) = some o
outcome_of d = none

abbrev pub State : Type 0
State = World Backups

abbrev Reads : Type 0 → Type 0
Reads A = Code State (Body Data) A

-- `sets.find((x) => x.host === host)?.backup_jobs`
unfoldable pub jobs_of : List JobSet → String → List String
jobs_of sets host = or_else (opt_map (λ x. x.backup_jobs) (find (λ x. x.host == host) sets)) []

abbrev pub has_jobs : JobSet → Bool
has_jobs x = not (is_empty x.backup_jobs)

-- The first host that has a job, and its first job.
abbrev initial_host : List JobSet → String
initial_host sets =
    or_else (opt_map (λ x. x.host) (find has_jobs sets))
      (or_else (opt_map (λ x. x.host) (first sets)) "")

abbrev first_job : Option (List String) → String
first_job none = ""
first_job (some jobs) = or_else (first jobs) ""

unfoldable pub mount : Reads (Unit {0})
mount =
    attempt
      (do
        me ← api_fetch "/api/auth/me" none none
        ite (not (ok me)) (pure tt) (do
          body ← await_json me
          token ← expect (identity_of body.value)
          store_csrf token
          response ← api_fetch "/api/backups/jobs" none none
          data_ ← parsed response "Could not load backup policy."
          sets ← expect (sets_of data_.value)
          set_page (λ b. record b {
            sets = sets;
            host = initial_host sets;
            job = first_job (opt_map (λ x. x.backup_jobs) (find has_jobs sets));
          })))
      (λ reason. set_page (λ b. record b { error = message_of reason "Agent API is offline." }))

-- `chooseHost` of the render that shows `c`, and so the handlers below.
unfoldable pub choose_host : String → Backups → Reads (Unit {0})
unfolding jobs_of
choose_host value c = set_page (λ b. record b {
  host = value;
  job = or_else (first (jobs_of c.sets value)) "";
  preview = none;
  outcome = none;
})

abbrev pub preview_body : Backups → Json
preview_body c = object (
    field "host" (text c.host)
      (field "job" (text c.job) (field "password" (text c.password) close)))

unfoldable pub create_preview : Backups → Reads (Unit {0})
create_preview c = do
  set_page (λ b. record b { busy = true; error = ""; outcome = none })
  guarded
      (do
        response ← api_fetch "/api/backups/preview" (some "POST") (some (preview_body c))
        body ← await_json response
        set_page (λ b. record b { password = "" })
        require_ok (ok response) (or_else body.detail "Preview was denied.")
        found ← expect (preview_of body.value)
        set_page (λ b. record b { preview = some found }))
      (λ reason b. record b { error = message_of reason "Could not create approval." })
      (λ b. record b { busy = false })

abbrev pub execute_body : Preview → Json
execute_body p = object (field "approval_token" (text p.approval_token) close)

abbrev pub execute_on : Option Preview → Bool → Reads (Unit {0})
execute_on none busy = pure tt
execute_on (some p) busy = ite busy (pure tt) (do
  set_page (λ b. record b { busy = true; error = "" })
  guarded
      (do
        response ← api_fetch "/api/backups/execute" (some "POST") (some (execute_body p))
        data_ ← parsed response "Backup was denied."
        found ← expect (outcome_of data_.value)
        set_page (λ b. record b { outcome = some found; preview = none }))
      (λ reason b. record b {
        error = message_of reason "Could not run the backup.";
        preview = none;
      })
      (λ b. record b { busy = false }))

unfoldable pub execute : Backups → Reads (Unit {0})
execute c = execute_on c.preview c.busy
