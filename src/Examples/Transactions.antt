-- ===== src/Examples/Transactions.antt =====
-- The theorems on ui/app/changes/page.tsx at a concrete page.
use sysadmin_mcp_assisstant.Prelude.{String, true, false, [], ◌∷◌, none, some}
use sysadmin_mcp_assisstant.Changes.{Preview, Evidence, Change, State}
use sysadmin_mcp_assisstant.Examples.{at}

abbrev pub restart : Preview
restart = record {
  effect = "restart nginx";
  service_impact = none;
  validation = none;
  rollback_strategy = none;
  recovery_snapshot = none;
  managed_file = none;
  package_ = none;
  service = some (record {
    unit = "nginx";
    impact = "brief";
    configuration_validated = true;
    material_approval_required = true;
    verification_checks = "http" ∷ [];
    verification_rule = "all";
    clear_failure_action = "rollback";
  });
}

abbrev stage : String → Evidence
stage name = record {
  stage = name;
  status = "ok";
  remote_mutation = false;
  snapshots = none;
  post_rollback_check = none;
  fleet_rollout = none;
}

abbrev pub nginx : Change
nginx = record {
  id = "c1";
  title = "Restart nginx";
  state = "previewed";
  actions =
      record {
        action = "restart_service";
        host = "web";
        target = "nginx";
        value = none;
        version = none;
      }
      ∷ [];
  plan_hash = "p1";
  created_at = "";
  updated_at = "";
  diff_hash = none;
  preview = some (restart ∷ []);
  evidence = stage "backup" ∷ [];
  approval_token = none;
  approval_owner = none;
  approval_expires_at = none;
  rollback_available = false;
}

abbrev pub page : State
page = at "/changes" (record {
  hosts = "web" ∷ [];
  items = nginx ∷ [];
  file_policies = [];
  package_policies = [];
  service_policies = [];
  title = "";
  host = "web";
  action = "write_managed_file";
  target = "";
  value = "";
  password = "pw";
  version = "";
  activation_password = "";
  editing_id = none;
  tokens = [];
  busy = false;
  error = "";
})
