-- ===== src/Examples/Plans.antt =====
-- The theorems on the plans, the records and the starts of ui/app/changes/page.tsx at a concrete page.
use sysadmin_mcp_assisstant.Prelude.{
  true, false, ◌&&◌, not, ◌≡◌, refl, inl, inr, [], ◌∷◌, none, some,
}
use sysadmin_mcp_assisstant.Task.{start, pure, ◌>>=◌}
use sysadmin_mcp_assisstant.Task.Pool.{replies, run}
use sysadmin_mcp_assisstant.Http.{Body}
use sysadmin_mcp_assisstant.View.{clickable, Offers}
use sysadmin_mcp_assisstant.Changes.{Change, Changes, Data, change, call}
use sysadmin_mcp_assisstant.Changes.Stages.{approve, handle}
use sysadmin_mcp_assisstant.Changes.Shapes.{ManagedFile}
use sysadmin_mcp_assisstant.Changes.Details.{Printer}
use sysadmin_mcp_assisstant.Changes.Listing.{item_view}
use sysadmin_mcp_assisstant.Changes.Offered.{asks_step, item_view-in_state}
use sysadmin_mcp_assisstant.Changes.Records.{known, token, put, call_refines}
use sysadmin_mcp_assisstant.Changes.Starts.{in_state, supplied, CanStart, approve_then_start}
use sysadmin_mcp_assisstant.Changes.Plans.{pick_target, target_view, plan_view}
use sysadmin_mcp_assisstant.Changes.Allowed.{Permits, plan_view-allowed}
use sysadmin_mcp_assisstant.Examples.Transactions.{restart, nginx, page}

abbrev approved : Change
approved = record nginx { state = "approved"; approval_token = some "t1" }

abbrev reply : Body Data
reply = record { detail = none; value = change approved }

call_refines_example :
    let p' =
      (run
        (start (do k ← call "/api/changes/c1/approve" none; pure tt))
        (replies 200 reply)
        page).page in
    (known p' "c1" ≡ put "c1" (some approved) (known page.page) "c1")
    × (token p' "c1" ≡ "t1")
    × (p'.busy ≡ false)
call_refines_example =
    call_refines "/api/changes/c1/approve" none 200 approved reply page "c1" refl refl

-- The diff that the operator sees is not complete.
abbrev motd : ManagedFile
motd = record {
  resolved_path = "/etc/motd";
  validator = "none";
  owner = "root";
  group = "root";
  mode = "0644";
  diff = "-old";
  diff_truncated = true;
  atomic_steps = [];
}

abbrev bounded : Change
bounded = record nginx { preview = some (record restart { managed_file = some motd } ∷ []) }

abbrev printer : Printer
printer = record { moment = λ x. x; number = λ x. x; raw = λ xs. "[]" }

item_view-in_state_example :
    clickable (asks_step approve) (item_view printer page.page bounded)
    ≡ in_state approve bounded.state && (supplied approve page.page bounded && not page.page.busy)
item_view-in_state_example = item_view-in_state printer approve page.page bounded

approve_then_start_example :
    CanStart approved "t1" (run (handle approve nginx page.page) (replies 200 reply) page)
approve_then_start_example =
    approve_then_start 200 nginx approved "t1" reply page refl refl refl refl refl

-- The host has a policy for one file.
abbrev files_page : Changes
files_page = record page.page {
  file_policies =
      record { host = "web"; entries = record { id = "motd"; path = "/etc/motd" } ∷ [] } ∷ [];
}

motd_offered : Offers (plan_view files_page) (pick_target "motd")
unfolding plan_view target_view
motd_offered = inr (inr (inr (inr (inl (refl, ("motd", refl, refl))))))

plan_view-allowed_example : Permits files_page (pick_target "motd")
plan_view-allowed_example = plan_view-allowed files_page (pick_target "motd") motd_offered
