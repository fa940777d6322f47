-- ===== src/Examples/Backups.antt =====
-- The theorems on ui/app/backups/page.tsx at a concrete page.
use sysadmin_mcp_assisstant.Prelude.{◌≤◌, if◌then◌else◌, inl, inr, refl, [], ◌∷◌, some}
use sysadmin_mcp_assisstant.Task.{Task, start, drive}
use sysadmin_mcp_assisstant.Task.Pool.{Session, here, next, react}
use sysadmin_mcp_assisstant.Http.{Body, api_fetch}
use sysadmin_mcp_assisstant.Task.Outcome.{Anything, Ensures}
use sysadmin_mcp_assisstant.Examples.{at}
use sysadmin_mcp_assisstant.Backups.{Preview, Data, State, initial, execute}
use sysadmin_mcp_assisstant.Backups.Screen.{
  confirm_job, form_view, preview_view, jobs_view, backups_view, handle,
}
use sysadmin_mcp_assisstant.Backups.Single.{Happens, Runs, one_backup}
use sysadmin_mcp_assisstant.Page.Exclusive.Sole.{posts}
use sysadmin_mcp_assisstant.Backups.Approval.{Shown, Spent, execute_spends_approval}

abbrev preview : Preview
preview = record {
  approval_token = "a1";
  expires_in_seconds = 60;
  host = "db";
  job = "database-dump";
  effect = "dump";
}

abbrev page : State
unfolding initial
page = at "/backups" (record initial { preview = some preview })

execute_spends_approval_example : Ensures Shown Anything Spent page (start (execute page.page)) page
unfolding page
execute_spends_approval_example = execute_spends_approval preview page refl refl

-- The page with a VM that has a job, and the preview of it.
abbrev previewed : State
unfolding initial
previewed = at "/backups" (record initial {
  sets = record { host = "db"; backup_jobs = "database-dump" ∷ [] } ∷ [];
  host = "db";
  job = "database-dump";
  preview = some preview;
})

abbrev confirmed : State × Task State (Body Data)
unfolding drive api_fetch execute handle
confirmed = drive (handle confirm_job previewed.page) previewed

offered : Happens previewed confirm_job
unfolding previewed backups_view jobs_view form_view preview_view
offered =
    inr (
      inr
        (inr (inr (inr (inr (inr (inr (inr (inr (inr (inr (inr (inr (inl (refl, refl)))))))))))))))

abbrev backing_up : Session State (Body Data)
backing_up = record { now = confirmed.0; tasks = confirmed.1 ∷ [] }

backs_up : Runs (record { now = previewed; tasks = [] }) backing_up
unfolding confirmed
backs_up = next here (react previewed [] confirm_job offered refl)

one_backup_example : posts backing_up.tasks ≤ (if backing_up.now.page.busy then 1 else 0)
one_backup_example = one_backup previewed backing_up backs_up
