-- ===== src/Scripts.antt =====
-- `ScriptPage` of ui/app/dynamic/page.tsx, which ui/app/scripts/page.tsx shows with `hostExecution`:
-- scripts that are generated, reviewed, approved and run. Two effects have an `active`, which is here
-- the question whether their number is still that of the latest run. The screen is in `Screen`.
pub mod Shapes
pub mod Screen
pub mod Review
pub mod Reviewed
pub mod Polling
pub mod Single
unfoldable pub use sysadmin_mcp_assisstant.Scripts.Shapes.{initial}
pub use sysadmin_mcp_assisstant.Scripts.Shapes.{
  Host, Output, Job, Scripts, initial_script, initial_verifier, Data, draft_of, job_of, nothing,
  identity, host_rows, draft, job_body,
}
use sysadmin_mcp_assisstant.Scripts.Shapes.{identity_of, hosts_of}
use sysadmin_mcp_assisstant.Prelude.{
  ℕ, suc, String, Bool, true, false, ◌&&◌, not, List, [], ◌∷◌, Option, none, some, filter, first,
  opt_map, or_else, eqb, ◌==◌, if◌then◌else◌,
}
use sysadmin_mcp_assisstant.Prelude.Text.{
  is_blank, concat, trim, slice, includes, or_text, encode_uri_component,
}
use sysadmin_mcp_assisstant.Task.{
  error, message_of, Json, text, number, object, field, close, Code, Failure, ok, pure, throw,
  state, ◌>>=◌, ◌>>◌, ite, expect, await_json, attempt, finally,
}
use sysadmin_mcp_assisstant.Http.{World, Body, api_fetch}
use sysadmin_mcp_assisstant.Page.{set_page, require_ok, store_csrf}

abbrev pub State : Type 0
State = World Scripts

abbrev pub Reads : Type 0 → Type 0
Reads A = Code State (Body Data) A

abbrev pub base : Scripts → String
base p = if p.host_execution then "/api/scripts" else "/api/dynamic"

abbrev pub job_path : Scripts → String → String
job_path p id = concat (base p ∷ "/jobs/" ∷ id ∷ [])

-- `if (active) …` of the effect of the first render, and of the polling effect
abbrev pub if_mounted : ℕ → Reads (Unit {0}) → Reads (Unit {0})
if_mounted n m = do s ← state; ite (eqb n s.page.mounts) m (pure tt)

abbrev if_polling : ℕ → Reads (Unit {0}) → Reads (Unit {0})
if_polling n m = do s ← state; ite (eqb n s.page.polls) m (pure tt)

-- The polling effect runs whenever the job's number or state changes, and ends the run before it.
unfoldable pub poll_effect : Reads (Unit {0})
poll_effect = set_page (λ p. record p { polls = suc p.polls })

-- One tick of the timer of the run `n`, for the job `id` that was running.
unfoldable pub poll : ℕ → String → Scripts → Reads (Unit {0})
poll n id c =
    attempt
      (do
        response ← api_fetch (job_path c id) none none
        s ← state
        ite (ok response && eqb n s.page.polls)
            (do
              body ← await_json response
              updated ← expect (job_of body.value)
              if_polling n (set_page (λ p. record p { job = some updated })))
            (pure tt))
      (λ _. pure tt)

abbrev pub is_lab : Host → Bool
is_lab h = includes ("development" ∷ "disposable_lab" ∷ []) h.environment

-- The job of the page's query, on the page for host scripts.
abbrev wanted_job : Scripts → String
wanted_job c = if c.host_execution then or_else c.query_job "" else ""

abbrev pub restore : Job → Scripts → Scripts
restore j p = record p {
  job = some j;
  host = j.host;
  task = j.title;
  script = j.script;
  verification = j.verification;
  seconds = j.timeout_seconds;
}

-- The job of the page's query, in the run `n` of the effect below.
abbrev pub reopen : ℕ → Scripts → Reads (Unit {0})
reopen n c = ite (is_blank (wanted_job c)) (pure tt) (do
  saved ← api_fetch (job_path c (encode_uri_component (wanted_job c))) none none
  require_ok (ok saved) "Job is unavailable in this authenticated session."
  loaded ← await_json saved
  j ← expect (job_of loaded.value)
  if_mounted n (set_page (restore j)))

-- The effect of the first render, of a render that shows `c`.
unfoldable pub mount : Scripts → Reads (Unit {0})
mount c = do
  set_page (λ p. record p { mounts = suc p.mounts })
  now ← state
  let n = now.page.mounts
  attempt
      (do
        me ← api_fetch "/api/auth/me" none none
        require_ok (ok me) "Sign in to continue."
        body ← await_json me
        token ← expect (identity_of body.value)
        store_csrf token
        response ← api_fetch "/api/hosts" none none
        require_ok (ok response) "Could not load VMs."
        found ← await_json response
        rows ← expect (hosts_of found.value)
        let labs = filter is_lab rows
        if_mounted n (
            set_page (λ p. record p {
              hosts = labs;
              host = or_else (opt_map (λ h. h.name) (first labs)) "";
            }))
        reopen n c)
      (λ reason.
        if_mounted n
          (set_page (λ p. record p { error = message_of reason "Could not load page." })))

-- A `detail` that is no text is `none`.
unfoldable pub post : String → Json → Reads (Body Data)
post path body = do
  response ← api_fetch path (some "POST") (some body)
  data_ ← await_json response
  require_ok (ok response)
      (or_else data_.detail "Request denied; check script syntax and selected mode.")
  pure data_

pub data Kind : Type 0 where
  generate prepare run : Kind

abbrev pub generate_body : Scripts → Json
generate_body c = object (
    field "host" (text c.host)
      (field "task" (text c.task) (field "provider" (text c.provider) close)))

abbrev pub prepare_body : Scripts → Json
prepare_body c = object (
    field "host" (text c.host) (
      field "title" (text (or_text (slice 120 (trim c.task)) "Reviewed sandbox script")) (
        field "script" (text c.script) (
          field "verification" (text c.verification)
            (field "timeout_seconds" (number c.seconds) close)))))

abbrev pub run_body : Job → String → Json
run_body j password =
    object (field "digest" (text j.digest) (field "password" (text password) close))

unfoldable pub show_job : Body Data → Reads (Unit {0})
show_job body = do j ← expect (job_of body.value); set_page (λ p. record p { job = some j })

abbrev pub run_job : Option Job → Scripts → Reads (Unit {0})
run_job none c = pure tt
run_job (some j) c = do
  set_page (λ p. record p { job = some (record j { state = "running" }) })
  body ← post (concat (base c ∷ "/jobs/" ∷ j.id ∷ "/run" ∷ [])) (run_body j c.password)
  show_job body

-- What the `catch` does after the error is set: the state of the job is asked for again.
abbrev pub recheck : Kind → Option Job → Scripts → Reads (Unit {0})
recheck run (some j) c =
    attempt
      (do
        response ← api_fetch (job_path c j.id) none none
        ite (ok response) (do body ← await_json response; show_job body) (pure tt))
      (λ _. pure tt)
recheck kind j c = pure tt

abbrev pub perform : Kind → Scripts → Reads (Unit {0})
perform generate c = do
  set_page (λ p. record p { job = none })
  body ← post (concat (base c ∷ "/generate" ∷ [])) (generate_body c)
  d ← expect (draft_of body.value)
  set_page (λ p. record p { script = d.0; verification = d.1 })
perform prepare c = do body ← post (concat (base c ∷ "/jobs" ∷ [])) (prepare_body c); show_job body
perform run c = run_job c.job c

-- `act` of the render that shows `c`.
unfoldable pub act : Kind → Scripts → Reads (Unit {0})
act kind c = do
  set_page (λ p. record p { busy = true; error = "" })
  finally
      (attempt (perform kind c) (λ reason. do
        set_page (λ p. record p { error = message_of reason "Request failed." })
        recheck kind c.job c))
      (set_page (λ p. record p { busy = false; password = "" }))
