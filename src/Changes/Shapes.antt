-- ===== src/Changes/Shapes.antt =====
-- The records of ui/app/changes/page.tsx that the backend sends. A number that the page only prints is its
-- text.
use sysadmin_mcp_assisstant.Prelude.{ℕ, String, Bool, List, Option}

pub record Action : Type 0 where
  pub action : String
  pub host : String
  pub target : String
  pub value : Option String
  pub version : Option String

pub record Recovery : Type 0 where
  pub reference : String
  pub checksum : String
  pub expires_at : String
  pub verified : Bool

pub record ManagedFile : Type 0 where
  pub resolved_path : String
  pub validator : String
  pub owner : String
  pub group : String
  pub mode : String
  pub diff : String
  pub diff_truncated : Bool
  pub atomic_steps : List String

pub record Package : Type 0 where
  pub package_name : String
  pub requested_version : String
  pub dependencies : List String
  pub removals : List String
  pub download_bytes : String
  pub disk_bytes : String
  pub reboot_required : Bool
  pub dependent_services : List String
  pub repository_change : Bool
  pub key_change : Bool
  pub rollback_limitation : String

pub record Service : Type 0 where
  pub unit : String
  pub impact : String
  pub configuration_validated : Bool
  pub material_approval_required : Bool
  -- the types of `verification_checks`
  pub verification_checks : List String
  pub verification_rule : String
  pub clear_failure_action : String

-- An entry of `preview`.
pub record Preview : Type 0 where
  pub effect : String
  pub service_impact : Option String
  pub validation : Option String
  pub rollback_strategy : Option String
  pub recovery_snapshot : Option Recovery
  pub managed_file : Option ManagedFile
  pub package_ : Option Package
  pub service : Option Service

pub record Snapshot : Type 0 where
  pub reference : String
  pub snapshot_type : String
  pub checksum : String
  pub expires_at : String
  pub verified : Bool

pub record RolloutHost : Type 0 where
  pub host : String
  pub wave : ℕ
  pub state : String
  pub lock : String

pub record Rollout : Type 0 where
  pub canary : String
  pub concurrency : String
  pub timeout_seconds : String
  pub circuit_breaker : String
  pub failed_host : Option String
  pub skipped_hosts : Option (List String)
  pub waves : List (List String)
  pub hosts : List RolloutHost

pub record Evidence : Type 0 where
  pub stage : String
  pub status : String
  pub remote_mutation : Bool
  pub snapshots : Option (List Snapshot)
  pub post_rollback_check : Option String
  pub fleet_rollout : Option Rollout

pub record Change : Type 0 where
  pub id : String
  pub title : String
  pub state : String
  pub actions : List Action
  pub plan_hash : String
  pub created_at : String
  pub updated_at : String
  pub diff_hash : Option String
  pub preview : Option (List Preview)
  pub evidence : List Evidence
  pub approval_token : Option String
  pub approval_owner : Option String
  pub approval_expires_at : Option String
  pub rollback_available : Bool

pub record FilePolicy : Type 0 where
  pub id : String
  pub path : String

pub record PackagePolicy : Type 0 where
  pub id : String
  pub name : String
  pub allowed_versions : List String
  pub held : Bool

pub record ServicePolicy : Type 0 where
  pub id : String
  pub unit : String
  pub actions : List String

-- The policies of one host.
pub record PolicySet (A : Type 0) : Type 0 where
  pub host : String
  pub entries : List A
