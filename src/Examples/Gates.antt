-- ===== src/Examples/Gates.antt =====
-- The theorems on ui/components/auth-gate.tsx and ui/lib/api.ts at concrete states and answers.
use sysadmin_mcp_assisstant.Prelude.{
  ℕ, String, Bool, true, false, ◌≡◌, ◌⊎◌, inl, refl, [], ◌∷◌, none, some,
}
use sysadmin_mcp_assisstant.Task.{Task, fulfilled, drive, start, expect}
use sysadmin_mcp_assisstant.Task.Pool.{
  Session, here, next, react, settled, deliver, response, payload, replies, run,
}
use sysadmin_mcp_assisstant.Task.Outcome.{Anything, Anytime, Ensures}
use sysadmin_mcp_assisstant.Examples.{at}
use sysadmin_mcp_assisstant.Task.{pure, ◌>>=◌}
use sysadmin_mcp_assisstant.Http.{Body, World, api_fetch}
use sysadmin_mcp_assisstant.Http.Redirects.{redirects, api_fetch-redirects}
use sysadmin_mcp_assisstant.AuthGate.{State, Data, identity, verify, gate_view}
use sysadmin_mcp_assisstant.AuthGate.Admission.{opens, handle, Signed}
use sysadmin_mcp_assisstant.AuthGate.Always.{Runs}
use sysadmin_mcp_assisstant.AuthGate.Offered.{gate_view-Signed}
use sysadmin_mcp_assisstant.View.{button}
use sysadmin_mcp_assisstant.AuthGate.Verdict.{verdict, Comes, checked, verify_decides}
use sysadmin_mcp_assisstant.AuthGate.Settles.{opened, redirects_settle}
use sysadmin_mcp_assisstant.AuthGate.Runs.{Ended, verify_ends}

abbrev fresh : State
fresh = at "/vms" (record { ready = false; offline = false; runs = 0 })

verify_decides_example :
    Comes
      (verdict "/vms" 200 true)
      fresh
      (run (start (verify "/vms")) (replies 200 (checked "t1" true)) fresh)
verify_decides_example = verify_decides "/vms" "t1" 200 true fresh

redirects_settle_example :
    let s1 = opened "/vms" 200 "t1" true fresh in
    (s1.page.ready ≡ true)
    ⊎ (s1.page.offline ≡ true)
    ⊎ ((to : String) × (s1.browser.visited ≡ to ∷ fresh.browser.visited)
        × ((opened to 200 "t1" true s1).page.ready ≡ true)
        × ((opened to 200 "t1" true s1).browser.visited ≡ s1.browser.visited))
redirects_settle_example = redirects_settle "/vms" "t1" 200 true fresh

verify_ends_example : Ensures Anytime Anything (Ended 1) fresh (start (verify "/vms")) fresh
verify_ends_example = verify_ends "/vms" fresh

abbrev expired : Body ℕ
expired = record { detail = some "Authentication required"; value = 0 }

abbrev hosts_page : World ℕ
hosts_page = at "/vms" 0

api_fetch-redirects_example :
    (run
      (start (do r ← api_fetch "/api/hosts" none none; pure tt))
      (replies 401 expired)
      hosts_page).browser.visited
    ≡ redirects 401 "Authentication required" hosts_page.browser
api_fetch-redirects_example = api_fetch-redirects "/api/hosts" none none 401 expired hosts_page

-- The backend has one session, whose password is not due.
abbrev Real : String → Bool → Type 0
Real token must = (token ≡ "t1") × (must ≡ false)

abbrev checking : State × Task State (Body Data)
unfolding drive handle verify
checking = drive (handle (opens "/vms") fresh) fresh

abbrev replied : State × Task State (Body Data)
unfolding checking drive
replied =
    deliver checking.1 (response (fulfilled (record { status = 200; has_body = true }))) checking.0

abbrev own_identity : Body Data
own_identity = record { detail = none; value = identity "t1" false }

abbrev admitted : State × Task State (Body Data)
unfolding replied drive expect
admitted = deliver replied.1 (payload (fulfilled own_identity)) replied.0

abbrev session : State × Task State (Body Data) → Session State (Body Data)
session x = record { now = x.0; tasks = x.1 ∷ [] }

same_identity :
    (token : String) (must : Bool) → identity "t1" false ≡ identity token must → Real token must
same_identity token must e = (cc, cc)

admits : Runs Real (record { now = fresh; tasks = [] }) (session admitted)
unfolding checking replied admitted
admits =
    next
      (next (next here (react fresh [] (opens "/vms") tt refl)) (
        settled checking.0 [] [] checking.1
          (response (fulfilled (record { status = 200; has_body = true }))) refl tt refl))
      (settled replied.0 [] [] replied.1 (payload (fulfilled own_identity)) refl same_identity refl)

-- The page at /vms has a button.
abbrev add_vm : String
add_vm = "add"

abbrev retry : String
retry = "retry"

gate_view-Signed_example : (add_vm ≡ retry) ⊎ Signed Real (session admitted).now.browser
unfolding admitted gate_view
gate_view-Signed_example =
    gate_view-Signed (button "Add a VM" false add_vm ∷ []) [] retry Real add_vm fresh.browser
      fresh.page (session admitted) refl admits (inl (refl, refl))
