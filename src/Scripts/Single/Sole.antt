-- ===== src/Scripts/Single/Sole.antt =====
-- At most one action of `ScriptPage` of ui/app/dynamic/page.tsx is in flight, whatever the operator does and
-- in whatever order the answers come.
use sysadmin_mcp_assisstant.Prelude.{
  ℕ, if◌then◌else◌, ◌≤◌, ℕ, String, false, not, List, [], ◌++◌, Option, none, some, when, ◌==◌, ◌≡◌,
  refl, arith, or_else,
}
use sysadmin_mcp_assisstant.Prelude.Text.{is_blank}
use sysadmin_mcp_assisstant.Task.Pool.{Session, Reach}
use sysadmin_mcp_assisstant.View.{Widget, Offers}
use sysadmin_mcp_assisstant.View.Only.{Only, Only-Offers, Only-append, Only-when, or_left}
use sysadmin_mcp_assisstant.Http.{Body}
use sysadmin_mcp_assisstant.Page.Exclusive.{Role, working, other}
use sysadmin_mcp_assisstant.Page.Exclusive.Sole.{posts, Runs-posts}
use sysadmin_mcp_assisstant.Scripts.{Output, Job, Scripts, Data, State}
use sysadmin_mcp_assisstant.Scripts.Screen.{
  Act, first_render, job_changed, timer, ask, pick_host, pick_provider, type_task, type_script,
  type_verifier, type_password, type_seconds, task_view, scripts_view, output_view, job_view,
  shown_job, script_page_view, handle,
}
use sysadmin_mcp_assisstant.Scripts.Single.{
  busy, Waits, act-Waits, poll_effect-Waits, poll-Waits, mount-Waits,
}

-- An action can be asked for only while the page is not busy.
abbrev pub Idle : Scripts → Act → Type 0
Idle p (ask kind) = p.busy ≡ false
Idle p a = Unit

module _ (to_number : String → ℕ) (p : Scripts) where
  abbrev P : Act → Type 0
  P = Idle p

  task_view-Idle : Only P (task_view to_number p)
  unfolding task_view
  task_view-Idle = (λ _ _. tt, (λ _ _. tt, (λ _. tt, (λ _. tt, (λ e. ground (arith, e), tt)))))

  scripts_view-Idle : Only P (scripts_view p)
  unfolding scripts_view
  scripts_view-Idle = (λ _. tt, (λ _. tt, (λ e. ground (arith, e), tt)))

  output_view-Idle : (stage : String) (o : Option Output) → Only P (output_view stage o)
  unfolding output_view
  output_view-Idle stage none = tt
  output_view-Idle stage (some o) = tt

  job_view-Idle : (j : Job) → Only P (job_view p j)
  unfolding job_view
  job_view-Idle j =
      Only-append P (when (j.state == "prepared") _) _
        (Only-when P (j.state == "prepared") _ (λ _. tt, (λ e. or_left p.busy _ e, tt)))
        (Only-append P (when (not (is_blank (or_else j.message ""))) _) _
          (Only-when P (not (is_blank (or_else j.message ""))) _ tt)
          (Only-append P (output_view "execution" j.execution) _ (output_view-Idle _ j.execution)
            (output_view-Idle _ j.verified)))

  shown_job-Idle : (o : Option Job) → Only P (shown_job p o)
  unfolding shown_job
  shown_job-Idle none = tt
  shown_job-Idle (some j) = job_view-Idle j

  parts-Idle :
      (ws : List (Widget Act))
      → Only P ws
      → Only P (task_view to_number p ++ (scripts_view p ++ (shown_job p p.job ++ ws)))
  parts-Idle ws h = Only-append P (task_view to_number p) _ task_view-Idle (
      Only-append P (scripts_view p) _ scripts_view-Idle
        (Only-append P (shown_job p p.job) ws (shown_job-Idle p.job) h))

  script_page_view-Idle :
      (connection : List (Widget Act))
      → Only P connection
      → Only P (script_page_view to_number connection p)
  unfolding script_page_view
  script_page_view-Idle connection only =
      Only-append P (when (not (is_blank p.error)) _) _ (Only-when P (not (is_blank p.error)) _ tt)
        (Only-append P (when p.host_execution connection) _
          (Only-when P p.host_execution connection only)
          (parts-Idle (when p.busy _) (Only-when P p.busy _ tt)))

module _ (to_number : String → ℕ) (connection : List (Widget Act)) where
  -- What can happen: the effects and the timers, and what the page offers.
  abbrev pub Happens : State → Act → Type 0
  Happens s first_render = Unit
  Happens s job_changed = Unit
  Happens s (timer n id) = Unit
  Happens s a = Offers (script_page_view to_number connection s.page) a

  abbrev pub Runs : Session State (Body Data) → Session State (Body Data) → Type 0
  Runs = Reach (λ r b. Unit {0}) Act Happens (λ a s. handle a s.page)

  module _ (only : (p : Scripts) → Only (Idle p) connection) where
    handle-Waits : (a : Act) (s : State) → Happens s a → (k : Role) × Waits k (handle a s.page) s
    unfolding handle
    handle-Waits first_render s o = (other, mount-Waits s)
    handle-Waits job_changed s o = (other, poll_effect-Waits s)
    handle-Waits (timer n id) s o = (other, poll-Waits n id s)
    handle-Waits (ask kind) s o = (
      working,
      act-Waits kind s (
          Only-Offers (Idle s.page) _ (ask kind)
            (script_page_view-Idle to_number s.page connection (only s.page)) o),
    )
    handle-Waits (pick_host x) s o = (other, (tt, refl))
    handle-Waits (pick_provider x) s o = (other, (tt, refl))
    handle-Waits (type_task x) s o = (other, (tt, refl))
    handle-Waits (type_script x) s o = (other, (tt, refl))
    handle-Waits (type_verifier x) s o = (other, (tt, refl))
    handle-Waits (type_password x) s o = (other, (tt, refl))
    handle-Waits (type_seconds x) s o = (other, (tt, refl))

    -- From a page with nothing in flight, after any acts that it offers, any ticks of timers and any
    -- answers in any order: at most one handler waits for the answer to a POST, and none where the page is
    -- not busy; where no button of the connection to the VM, which is shown with it, asks for an action
    -- on a busy page.
    pub one_action :
        (w : State) (y : Session State (Body Data))
        → Runs (record { now = w; tasks = [] }) y
        → posts y.tasks ≤ (if y.now.page.busy then 1 else 0)
    one_action w y runs = Runs-posts busy Happens (λ a s. handle a s.page) handle-Waits w y runs
