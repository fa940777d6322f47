-- ===== src/Scripts/Review.antt =====
-- The review in `ScriptPage` of ui/app/dynamic/page.tsx: what is approved is what is shown.
use sysadmin_mcp_assisstant.Prelude.{
  ℕ, String, Bool, true, false, ◌&&◌, ◌||◌, not, List, Option, none, some, ◌==◌, ◌≡◌, refl,
}
use sysadmin_mcp_assisstant.Prelude.Text.{is_blank}
use sysadmin_mcp_assisstant.Task.{Json, Failure, Task, message_of, done, ◌>>◌, start}
use sysadmin_mcp_assisstant.Task.Outcome.{Anything, Anytime, Ensures, Ensures-expect}
use sysadmin_mcp_assisstant.Http.{Body}
use sysadmin_mcp_assisstant.Http.Ensured.{Ensures-api_fetch}
use sysadmin_mcp_assisstant.Page.{set_page}
use sysadmin_mcp_assisstant.View.{Widget, clickable, clicks}
use sysadmin_mcp_assisstant.Scripts.{
  Output, Job, Scripts, State, Kind, generate, prepare, run, draft_of, job_of, Data, post, show_job,
  recheck, run_job, act,
}
use sysadmin_mcp_assisstant.Scripts.Screen.{
  Act, ask, task_view, scripts_view, output_view, job_view, shown_job, script_page_view,
}

-- A click that approves the job and runs it.
abbrev pub is_run : Act → Bool
is_run (ask run) = true
is_run e = false

-- The job is prepared, the page is not busy and a password is typed.
abbrev pub ready : Scripts → Option Job → Bool
ready p none = false
ready p (some j) = j.state == "prepared" && not (p.busy || is_blank p.password)

clickable-output_view :
    (stage : String) (o : Option Output) → clickable is_run (output_view stage o) ≡ false
unfolding output_view
clickable-output_view stage none = refl
clickable-output_view stage (some o) = refl

clickable-job_view :
    (p : Scripts) (j : Job)
    → clickable is_run (job_view p j) ≡ j.state == "prepared" && not (p.busy || is_blank p.password)
unfolding job_view
clickable-job_view p j = simp (clicks, clickable-output_view)

clickable-shown_job : (p : Scripts) (o : Option Job) → clickable is_run (shown_job p o) ≡ ready p o
unfolding shown_job
clickable-shown_job p none = refl
clickable-shown_job p (some j) = clickable-job_view p j

-- On the page the operator can approve and run a job exactly where the job shown is prepared, the
-- page is not busy and a password is typed; where no button of the connection to the VM, which is
-- shown with it, does so.
pub script_page_view-approvable :
    (to_number : String → ℕ) (connection : List (Widget Act)) (p : Scripts)
    → clickable is_run connection ≡ false
    → clickable is_run (script_page_view to_number connection p) ≡ ready p p.job
unfolding script_page_view task_view scripts_view
script_page_view-approvable to_number connection p other = simp (clicks, clickable-shown_job, other)

-- The end of an action.
unfoldable pub over : Task State (Body Data)
over = set_page (λ (p : Scripts). record p { busy = false; password = "" }) (λ _. done) (λ _. done)

-- The page is not busy and holds no password.
abbrev pub Over : State → State → Type 0
Over b s = (s.page.busy ≡ false) × (s.page.password ≡ "")

Sure : State → Task State (Body Data) → State → Type 0
Sure = Ensures Anytime Anything Over

module _ (before : State) where
  Ensures-post :
      (path : String) (body : Json) (k : Body Data → Task State (Body Data))
      (e : Failure → Task State (Body Data)) (s : State)
      → ((x : Body Data) (b u : State) → Sure b (k x) u)
      → ((f : Failure) (b u : State) → Sure b (e f) u)
      → Sure before (post path body k e) s
  unfolding Sure post
  Ensures-post path body k e s hk he =
      Ensures-api_fetch Anytime Anything Over (λ _ _ _ _. tt) (λ _. tt) _ _ _ _ _ before s tt
        (λ r b s' _ _ _. (tt, λ x u _. (λ _. hk x u u, λ _. he _ u u), λ f u _. he f u u))
        (λ f u _. he f u u)

  Ensures-show_job :
      (x : Body Data) (k : Unit {0} → Task State (Body Data)) (e : Failure → Task State (Body Data))
      (s : State)
      → ((b u : State) → Sure b (k tt) u)
      → ((f : Failure) (b u : State) → Sure b (e f) u)
      → Sure before (show_job x k e) s
  unfolding Sure show_job
  Ensures-show_job x k e s hk he =
      Ensures-expect Anytime Anything Over (job_of x.value) _ _ before s (λ j _. hk before _)
        (λ f. he f before s)

Ensures-recheck :
    (o : Option Job) (c : Scripts) (before s : State)
    → Sure before (recheck run o c (λ _. over) (λ _. over)) s
unfolding Sure over
Ensures-recheck none c before s = (refl, refl)
Ensures-recheck (some j) c before s =
    Ensures-api_fetch Anytime Anything Over (λ _ _ _ _. tt) (λ _. tt) _ _ _ _ _ before s tt
      (λ r b s' _ _ _. (
        λ _. (
          tt,
          λ x u _. Ensures-show_job u x _ _ u (λ v w. (refl, refl)) (λ f v w. (refl, refl)),
          λ f u _. (refl, refl),
        ),
        λ _. (refl, refl),
      ))
      (λ f u _. (refl, refl))

-- What follows a failure of `run`.
abbrev pub failed : Option Job → Scripts → Failure → Task State (Body Data)
failed o c f =
    (set_page (λ p. record p { error = message_of f "Request failed." }) >> recheck run o c)
      (λ _. over) (λ _. over)

Ensures-run_job :
    (o : Option Job) (c : Scripts) (before s : State)
    → Sure before (run_job o c (λ _. over) (failed o c)) s
unfolding Sure over
Ensures-run_job none c before s = (refl, refl)
Ensures-run_job (some j) c before s =
    Ensures-post before _ _ _ _ _
      (λ x b u.
        Ensures-show_job b x _ _ u (λ v w. (refl, refl)) (λ f v w. Ensures-recheck (some j) c v _))
      (λ f b u. Ensures-recheck (some j) c b _)

-- Whatever the backend answers, and whatever happens in between, at the end of each of the three
-- actions the page is not busy and holds no password.
pub act_ends :
    (kind : Kind) (s : State) → Ensures Anytime Anything Over s (start (act kind s.page)) s
unfolding act Sure over
act_ends generate s =
    Ensures-post s _ _ _ _ _
      (λ x b u.
        Ensures-expect Anytime Anything Over (draft_of x.value) _ _ b u (λ d _. (refl, refl))
          (λ f. (refl, refl)))
      (λ f b u. (refl, refl))
act_ends prepare s =
    Ensures-post s _ _ _ _ _
      (λ x b u. Ensures-show_job b x _ _ u (λ v w. (refl, refl)) (λ f v w. (refl, refl)))
      (λ f b u. (refl, refl))
act_ends run s = Ensures-run_job s.page.job s.page s _
