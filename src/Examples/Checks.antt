-- ===== src/Examples/Checks.antt =====
-- The theorems on ui/app/remediation/page.tsx and ui/app/account/page.tsx at concrete pages.
use sysadmin_mcp_assisstant.Prelude.{
  ◌≤◌, if◌then◌else◌, inl, inr, true, false, ◌||◌, not, ◌≡◌, refl, ◌⊎◌, [], ◌∷◌, some,
}
use sysadmin_mcp_assisstant.Task.{
  text, object, field, close, Task, start, drive, done, rejected, other,
}
use sysadmin_mcp_assisstant.Task.Sends.{SendsOnce}
use sysadmin_mcp_assisstant.Task.Pool.{Session, here, next, react, response, run}
use sysadmin_mcp_assisstant.Task.Outcome.{Anything, Ensures}
use sysadmin_mcp_assisstant.Http.{Body, api_fetch, request_of}
use sysadmin_mcp_assisstant.Examples.{at}
use sysadmin_mcp_assisstant.Remediation
use sysadmin_mcp_assisstant.Remediation.Screen
use sysadmin_mcp_assisstant.Remediation.Single
use sysadmin_mcp_assisstant.Remediation.Single.{one_restart}
use sysadmin_mcp_assisstant.Page.Exclusive.Sole.{posts}
use sysadmin_mcp_assisstant.Remediation.Restarts.{Shown, Spent, execute_spends_restart}
use sysadmin_mcp_assisstant.Account
use sysadmin_mcp_assisstant.Account.{revoke}
use sysadmin_mcp_assisstant.Account.Revocation.{revoke_gate}

abbrev preview : Remediation.Preview
preview = record {
  approval_token = "a1";
  expires_in_seconds = 120;
  host = "web";
  service = "nginx";
  effect = "restart nginx";
  before = record {
    command = [];
    stdout = "active";
    stderr = "";
    exit_status = 0;
    truncated = false;
  };
}

abbrev remediation : Remediation.State
unfolding Remediation.initial
remediation = at "/remediation" (record Remediation.initial { preview = some preview })

execute_spends_restart_example :
    SendsOnce (drive (start (Remediation.execute remediation.page)) remediation).1 (
      request_of "/api/remediation/restart/execute"
        (some "POST")
        (some (object (field "approval_token" (text "a1") close)))
        remediation.browser)
    × Ensures Shown Anything Spent remediation
        (start (Remediation.execute remediation.page))
        remediation
unfolding remediation
execute_spends_restart_example = execute_spends_restart preview remediation refl refl

abbrev tablet : Account.Session
tablet = record {
  session_id = "s2";
  client_label = "Tablet";
  last_seen_at = "";
  expires_at = "";
  current = false;
}

abbrev account : Account.State
unfolding Account.initial
account = at "/account" (record Account.initial { sessions = tablet ∷ []; busy = false })

revoke_gate_example :
    ((tablet.current || not true ≡ true)
      × (drive (start (revoke tablet true)) account ≡ (account, done)))
    ⊎ ((tablet.current || not true ≡ false)
        × SendsOnce (drive (start (revoke tablet true)) account).1 (
            request_of "/api/auth/sessions/revoke"
              (some "POST")
              (some (object (field "session_id" (text "s2") close)))
              account.browser)
        × (run (start (revoke tablet true)) (response (rejected other) ∷ []) account
            ≡ record account { page = record account.page { error = "" } }))
revoke_gate_example = revoke_gate tablet true other account

-- The page with a service that may be restarted, and its preview.
abbrev previewed : Remediation.State
unfolding Remediation.initial
previewed = at "/remediation" (record Remediation.initial {
  actions = record { host = "web"; restart_services = "nginx" ∷ [] } ∷ [];
  host = "web";
  service = "nginx";
  preview = some preview;
})

abbrev confirmed : Remediation.State × Task Remediation.State (Body Remediation.Data)
unfolding drive api_fetch Remediation.execute Screen.handle
confirmed = drive (Screen.handle Screen.confirm previewed.page) previewed

offered : Single.Happens previewed Screen.confirm
unfolding previewed Screen.remediation_view Screen.form_view Screen.preview_view
offered = inr (
    inr (
      inr (
        inr (
          inr (
            inr (
              inr
                (inr (inr (inr (inr (inr (inr (inr (inr (inr (inr (inl (refl, refl))))))))))))))))))

abbrev restarting : Session Remediation.State (Body Remediation.Data)
restarting = record { now = confirmed.0; tasks = confirmed.1 ∷ [] }

restarts : Single.Runs (record { now = previewed; tasks = [] }) restarting
unfolding confirmed
restarts = next here (react previewed [] Screen.confirm offered refl)

one_restart_example : posts restarting.tasks ≤ (if restarting.now.page.busy then 1 else 0)
one_restart_example = one_restart previewed restarting restarts
