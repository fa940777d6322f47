-- ===== src/Examples/Accounts.antt =====
-- The theorems on ui/app/login/page.tsx and ui/app/change-password/page.tsx at concrete pages.
use sysadmin_mcp_assisstant.Prelude.{true, false, ◌==◌, ◌≡◌, refl, ◌⊎◌, none, some, [], ◌∷◌}
use sysadmin_mcp_assisstant.Task.{text, object, field, close, start}
use sysadmin_mcp_assisstant.Task.Sends.{SendsOnce}
use sysadmin_mcp_assisstant.Login.Repeats.{Runs, sign_ins_unbounded}
use sysadmin_mcp_assisstant.Login.Admitted.{next_gate, submit-opened}
use sysadmin_mcp_assisstant.AuthGate.{Gate}
use sysadmin_mcp_assisstant.Page.Exclusive.Sole.{posts}
use sysadmin_mcp_assisstant.Task.Pool.{Session, replies, run}
use sysadmin_mcp_assisstant.Examples.{at}
use sysadmin_mcp_assisstant.Task.{done, drive}
use sysadmin_mcp_assisstant.Http.{Body, World, request_of}
use sysadmin_mcp_assisstant.Login.{Data, identity, State, submit}
use sysadmin_mcp_assisstant.Login.Attempts.{signed_in, submit_signs_in}
use sysadmin_mcp_assisstant.Password.{Password}
use sysadmin_mcp_assisstant.Password as Change
use sysadmin_mcp_assisstant.Password.Submission.{change_gate}

abbrev page : State
page = at "/login" (record { username = "admin"; password = "admin"; error = ""; busy = true })

abbrev first_login : Body Data
first_login = record { detail = none; value = identity "t1" true }

submit_signs_in_example :
    run (start (submit page.page)) (replies 200 first_login) page
    ≡ signed_in 200 "t1" true first_login page
submit_signs_in_example = submit_signs_in 200 "t1" true first_login page refl

sign_ins_unbounded_example :
    (y : Session State (Body Data)) × Runs (record { now = page; tasks = [] }) y
    × (posts y.tasks ≡ 3)
sign_ins_unbounded_example = sign_ins_unbounded 3 page

abbrev gate : Gate
gate = record { ready = true; offline = false; runs = 1 }

submit-opened_example :
    let s1 = run (start (submit page.page)) (replies 200 first_login) page in
    (s1.browser.csrf ≡ some "t1")
    × (s1.browser.visited ≡ "/change-password" ∷ [])
    × ((next_gate "t1" true gate s1).page.ready ≡ true)
    × ((next_gate "t1" true gate s1).browser.visited ≡ s1.browser.visited)
submit-opened_example = submit-opened 200 "t1" true first_login gate page refl refl

abbrev typed : Password
typed = record {
  current = "admin";
  next = "long enough pw";
  confirm = "long enough pw";
  forced = true;
  error = "";
  busy = false;
}

abbrev form : World Password
form = at "/change-password" typed

change_gate_example :
    ((typed.next == typed.confirm ≡ false)
      × (drive (start (Change.submit typed)) form
          ≡ (record form { page = record typed { error = "New passwords do not match." } }, done)))
    ⊎ ((typed.next == typed.confirm ≡ true)
        × SendsOnce (drive (start (Change.submit typed)) form).1 (
            request_of "/api/auth/change-password"
              (some "POST")
              (some (
                object (
                  field "current_password"
                    (text "admin")
                    (field "new_password" (text "long enough pw") close))))
              form.browser)
        × ((drive (start (Change.submit typed)) form).0
            ≡ record form { page = record typed { busy = true; error = "" } }))
change_gate_example = change_gate form
