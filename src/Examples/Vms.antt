-- ===== src/Examples/Vms.antt =====
-- The theorems on ui/app/vms/page.tsx at a concrete page.
use sysadmin_mcp_assisstant.Prelude.{true, false, ◌≡◌, refl, [], ◌∷◌, none, some}
use sysadmin_mcp_assisstant.Task.{start, drive, rejected, other}
use sysadmin_mcp_assisstant.Task.Sends.{SendsOnce}
use sysadmin_mcp_assisstant.Task.Pool.{replies, response, run}
use sysadmin_mcp_assisstant.Http.{Body}
use sysadmin_mcp_assisstant.Task.Outcome.{Anything, Ensures}
use sysadmin_mcp_assisstant.Examples.{at}
use sysadmin_mcp_assisstant.Vms.Shapes.{nothing}
use sysadmin_mcp_assisstant.Vms.{
  Host, Pending, Classification, Data, State, initial, decide, classify,
}
use sysadmin_mcp_assisstant.Vms.Keys.{Untouched, decide_clears_key}
use sysadmin_mcp_assisstant.Vms.Answers.{classifying, classified, classify_answered}

abbrev web : Host
web = record {
  name = "web";
  hostname = "10.0.0.1";
  allowed_logs = [];
  backup_jobs = [];
  environment = "production";
}

abbrev key : Pending
key = record {
  token = "p1";
  host = "10.0.0.2";
  port = 22;
  algorithm = "ssh-ed25519";
  fingerprint = "SHA256:x";
}

abbrev chosen : Classification
chosen = record { host = web; environment = "staging"; password = "pw" }

abbrev page : State
unfolding initial
page =
    at "/vms"
      (record initial { hosts = web ∷ []; pending = some key; classification = some chosen })

decide_clears_key_example :
    Ensures Untouched Anything
      (λ _ s'. (s'.page.pending ≡ none) × (s'.page.busy ≡ false))
      page
      (start (decide true page.page))
      page
unfolding page
decide_clears_key_example = decide_clears_key true key page refl

abbrev denied : Body Data
denied = record { detail = some "VM is in use."; value = nothing }

classify_answered_example :
    SendsOnce (drive (start (classify page.page)) page).1 (classifying chosen page.browser)
    × (run (start (classify page.page)) (replies 200 denied) page
        ≡ classified chosen 200 denied page)
    × (run (start (classify page.page)) (response (rejected other) ∷ []) page ≡ record page {
      page = record page.page { busy = false; error = "Could not classify VM."; notice = "" };
    })
unfolding page
classify_answered_example = classify_answered chosen 200 denied other page refl refl
