-- ===== src/Login/Admitted.antt =====
-- Signing in with ui/app/login/page.tsx, and the gate of ui/components/auth-gate.tsx before the page that
-- it goes to.
use sysadmin_mcp_assisstant.Prelude.{
  ℕ, String, Bool, true, false, ◌&&◌, ◌∷◌, some, leb, ltb, if◌then◌else◌, ◌≡◌, refl,
}
use mathlib.Core.Path.{subst}
use sysadmin_mcp_assisstant.Task.{start}
use sysadmin_mcp_assisstant.Task.Pool.{replies, run}
use sysadmin_mcp_assisstant.Http.{Body}
use sysadmin_mcp_assisstant.Login.{Data, identity, State, submit}
use sysadmin_mcp_assisstant.Login.Attempts.{signed_in, submit_signs_in}
use sysadmin_mcp_assisstant.AuthGate
use sysadmin_mcp_assisstant.AuthGate.{Gate}
use sysadmin_mcp_assisstant.AuthGate.Verdict.{opens, verdict, Comes}
use sysadmin_mcp_assisstant.AuthGate.Settles.{opened, opened-Comes}

-- Where a sign-in goes to.
abbrev target : Bool → String
target must = if must then "/change-password" else "/"

target-opens : (must : Bool) → verdict (target must) 200 must ≡ opens
target-opens true = refl
target-opens false = refl

-- The gate on that page, in the browser that the sign-in has left.
abbrev pub next_gate : String → Bool → Gate → State → AuthGate.State
next_gate token must g s1 =
    opened (target must) 200 token must (record { browser = s1.browser; page = g })

-- With nothing in between, where a sign-in is answered with a status that is `ok` and an identity: its
-- token is stored, and the browser is sent to one page, which the gate, where the backend then answers
-- with the same identity, shows without a redirect.
pub submit-opened :
    (st : ℕ) (token : String) (must : Bool) (d : Body Data) (g : Gate) (s : State)
    → leb 200 st && ltb st 300 ≡ true
    → d.value ≡ identity token must
    → let s1 = run (start (submit s.page)) (replies st d) s in
      (s1.browser.csrf ≡ some token)
      × (s1.browser.visited ≡ target must ∷ s.browser.visited)
      × ((next_gate token must g s1).page.ready ≡ true)
      × ((next_gate token must g s1).browser.visited ≡ s1.browser.visited)
submit-opened st token must d g s fine who =
    let s1 = run (start (submit s.page)) (replies st d) s in
    let e : s1 ≡ signed_in st token must d s = submit_signs_in st token must d s who in
    let (shown, _, still) =
      subst (λ v. Comes v (record { browser = s1.browser; page = g }) (next_gate token must g s1))
        (target-opens must)
        (opened-Comes (target must) token 200 must (record { browser = s1.browser; page = g })) in
    (rw (e, fine) refl, rw (e, fine) refl, shown, still)
