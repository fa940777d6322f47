-- ===== src/Examples/Jobs.antt =====
-- The theorems on ui/app/dynamic/page.tsx at a concrete page.
use sysadmin_mcp_assisstant.Prelude.{
  true, if◌then◌else◌, ◌≤◌, inl, inr, ◌≡◌, refl, [], ◌∷◌, none, some,
}
use sysadmin_mcp_assisstant.Task.{Task, start, drive}
use sysadmin_mcp_assisstant.Task.Pool.{Session, here, next, react}
use sysadmin_mcp_assisstant.Task.Outcome.{Anything, Anytime, Ensures}
use sysadmin_mcp_assisstant.Http.{Body, api_fetch}
use sysadmin_mcp_assisstant.View.{clickable}
use sysadmin_mcp_assisstant.Examples.{at}
use sysadmin_mcp_assisstant.Scripts.{Job, Data, State, run, initial, act, poll}
use sysadmin_mcp_assisstant.Scripts.Screen.{ask, job_view, script_page_view, handle}
use sysadmin_mcp_assisstant.Scripts.Reviewed.{Reviewed}
use sysadmin_mcp_assisstant.Scripts.Review.{
  is_run, ready, Over, script_page_view-approvable, act_ends,
}
use sysadmin_mcp_assisstant.Scripts.Single.Sole
use sysadmin_mcp_assisstant.Scripts.Single.Sole.{one_action}
use sysadmin_mcp_assisstant.Page.Exclusive.Sole.{posts}
use sysadmin_mcp_assisstant.Scripts.Polling.{Idle, poll_superseded}

abbrev job : Job
job = record {
  host = "web";
  title = "Install curl";
  script = "print(1)";
  verification = "print(2)";
  timeout_seconds = 30;
  id = "j1";
  digest = "d1";
  state = "prepared";
  execution = none;
  verified = none;
  message = none;
}

abbrev page : State
unfolding initial
page = at "/scripts" (record (initial true none) {
  host = "web";
  script = "print(1)";
  verification = "print(2)";
  password = "secret";
  job = some job;
  polls = 2;
})

script_page_view-approvable_example :
    clickable is_run (script_page_view (λ x. 30) [] page.page) ≡ ready page.page page.page.job
script_page_view-approvable_example = script_page_view-approvable (λ x. 30) [] page.page refl

act_ends_example : Ensures Anytime Anything Over page (start (act run page.page)) page
act_ends_example = act_ends run page

poll_superseded_example :
    Ensures (Idle 1) Anything (Idle 1) page (start (poll 1 "j1" page.page)) page
poll_superseded_example = poll_superseded 1 "j1" page

-- The operator approves the job.
abbrev approved : State × Task State (Body Data)
unfolding drive api_fetch act handle
approved = drive (handle (ask run) page.page) page

abbrev running_job : Session State (Body Data)
running_job = record { now = approved.0; tasks = approved.1 ∷ [] }

offered : Sole.Happens (λ x. 30) [] page (ask run)
unfolding page script_page_view job_view
offered = inr (
    inr (
      inr (
        inr (
          inr
            (inr (inr (inr (inr (inr (inr (inr (inr (inr (inr (inr (inl (refl, refl)))))))))))))))))

approves : Sole.Runs (λ x. 30) [] (record { now = page; tasks = [] }) running_job
unfolding approved
approves = next here (react page [] (ask run) offered refl)

one_action_example : posts running_job.tasks ≤ (if running_job.now.page.busy then 1 else 0)
one_action_example = one_action (λ x. 30) [] (λ p. tt) page running_job approves
