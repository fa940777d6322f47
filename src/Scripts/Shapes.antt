-- ===== src/Scripts/Shapes.antt =====
-- The state of `ScriptPage` of ui/app/dynamic/page.tsx, and what the backend's answers hold.
use sysadmin_mcp_assisstant.Prelude.{
  ℕ, String, Bool, false, List, [], ◌∷◌, Option, none, some, if◌then◌else◌,
}
use sysadmin_mcp_assisstant.Prelude.Text.{concat}

pub record Host : Type 0 where
  pub name : String
  pub environment : String

pub record Output : Type 0 where
  pub exit_status : ℕ
  pub stdout : String
  pub stderr : String
  pub truncated : Bool

-- `expires`, which the page does not show, is left out.
pub record Job : Type 0 where
  pub host : String
  pub title : String
  pub script : String
  pub verification : String
  pub timeout_seconds : ℕ
  pub id : String
  pub digest : String
  pub state : String
  -- the three parts of `result`
  pub execution : Option Output
  pub verified : Option Output
  pub message : Option String

pub record Scripts : Type 0 where
  -- the parameter `hostExecution`, and `job` of the page's query
  pub host_execution : Bool
  pub query_job : Option String
  pub hosts : List Host
  pub host : String
  pub task : String
  pub provider : String
  pub script : String
  pub verification : String
  pub seconds : ℕ
  pub password : String
  pub job : Option Job
  pub busy : Bool
  pub error : String
  -- how often the effect of the first render and the polling effect have run or been cleaned up
  pub mounts : ℕ
  pub polls : ℕ

abbrev pub initial_script : String
initial_script = concat (
    "from pathlib import Path\n"
    ∷ "Path(\"/work/result.txt\").write_text(\"hello from the sandbox\")\n"
    ∷ "print(\"Created result.txt\")\n" ∷ [])

abbrev pub initial_verifier : String
initial_verifier = concat (
    "import json\nfrom pathlib import Path\n"
    ∷ "print(json.dumps({\"checks\": [{\"name\": \"Expected file content\", \"passed\": "
    ∷ "Path(\"/work/result.txt\").read_text() == \"hello from the sandbox\"}]}))\n" ∷ [])

unfoldable pub initial : Bool → Option String → Scripts
unfolding concat
initial host_execution query_job = record {
  host_execution = host_execution;
  query_job = query_job;
  hosts = [];
  host = "";
  task = "";
  provider = "openai";
  script = (if host_execution then "" else initial_script);
  verification = (if host_execution then "" else initial_verifier);
  seconds = 30;
  password = "";
  job = none;
  busy = false;
  error = "";
  mounts = 0;
  polls = 0;
}

pub data Data : Type 0 where
  nothing : Data
  identity : String → Data
  host_rows : List Host → Data
  draft : String → String → Data
  job_body : Job → Data

abbrev pub identity_of : Data → Option String
identity_of (identity token) = some token
identity_of d = none

abbrev pub hosts_of : Data → Option (List Host)
hosts_of (host_rows xs) = some xs
hosts_of d = none

abbrev pub draft_of : Data → Option (String × String)
draft_of (draft s v) = some (s, v)
draft_of d = none

abbrev pub job_of : Data → Option Job
job_of (job_body j) = some j
job_of d = none
