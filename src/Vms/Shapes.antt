-- ===== src/Vms/Shapes.antt =====
-- The state of ui/app/vms/page.tsx, and what the backend's answers hold.
use sysadmin_mcp_assisstant.Prelude.{ℕ, String, Bool, true, false, List, [], Option, none, some}

-- `environment` is `production`, `staging`, `development` or `disposable_lab`.
pub record Host : Type 0 where
  pub name : String
  pub hostname : String
  pub allowed_logs : List String
  pub backup_jobs : List String
  pub environment : String

pub record Pending : Type 0 where
  pub token : String
  pub host : String
  pub port : ℕ
  pub algorithm : String
  pub fingerprint : String

pub record Form : Type 0 where
  pub name : String
  pub hostname : String
  pub port : String
  pub username : String
  pub password : String
  pub allowed_logs : String
  pub restart_services : String
  pub backup_jobs : String
  pub environment : String

unfoldable pub blank_form : Form
blank_form = record {
  name = "";
  hostname = "";
  port = "22";
  username = "";
  password = "";
  allowed_logs = "/var/log/syslog\n/var/log/auth.log";
  restart_services = "";
  backup_jobs = "database-dump";
  environment = "production";
}

pub record Classification : Type 0 where
  pub host : Host
  pub environment : String
  pub password : String

pub record Vms : Type 0 where
  pub hosts : List Host
  pub form : Form
  pub pending : Option Pending
  pub busy : Bool
  pub removing : String
  pub error : String
  pub notice : String
  pub classification : Option Classification

unfoldable pub initial : Vms
unfolding blank_form
initial = record {
  hosts = [];
  form = blank_form;
  pending = none;
  busy = false;
  removing = "";
  error = "";
  notice = "";
  classification = none;
}

-- What the bodies hold: of `decide-key`, whether the key is trusted, and the VM that was added.
pub data Data : Type 0 where
  nothing : Data
  identity : String → Data
  host_rows : List Host → Data
  discovered : Pending → Data
  decision : Bool → Option Host → Data

abbrev pub identity_of : Data → Option String
identity_of (identity token) = some token
identity_of d = none

abbrev pub hosts_of : Data → Option (List Host)
hosts_of (host_rows xs) = some xs
hosts_of d = none

abbrev pub pending_of : Data → Option Pending
pending_of (discovered p) = some p
pending_of d = none

-- `data.trusted && data.host`
abbrev pub added : Data → Option Host
added (decision true h) = h
added d = none
