-- ===== src/Http/Redirects.antt =====
-- Where `apiFetch` of ui/lib/api.ts sends the browser.
use sysadmin_mcp_assisstant.Prelude.{
  not, ◌==◌, ℕ, String, Bool, true, false, ◌&&◌, ◌||◌, List, ◌∷◌, Option, eqb, if◌then◌else◌,
  or_else, ◌≡◌, refl, arith,
}
use sysadmin_mcp_assisstant.Task.{Json, start, ◌>>=◌, pure}
use sysadmin_mcp_assisstant.Task.Pool.{replies, run}
use sysadmin_mcp_assisstant.Task.Answered.{Answered-run}
use sysadmin_mcp_assisstant.Http.{Browser, World, Body, denied_to, api_fetch}
use text.Mathlib.Text.{starts_with}

-- Where an answer with the status `st` and the detail `d` sends the browser.
abbrev pub redirects : ℕ → String → Browser → List String
redirects st d b =
    if eqb st 401
      && (d == "Authentication required" && b.has_window && not (starts_with b.path "/login"))
    then "/login" ∷ b.visited
    else if eqb st 403
        && (d == "Password change required"
            && b.has_window
            && not (starts_with b.path "/change-password"))
    then "/change-password" ∷ b.visited
    else b.visited

not_both : (n : ℕ) (a b : Bool) → eqb n 401 && a ≡ true → eqb n 403 && b ≡ false
not_both n a b h = ground arith

neither : (n : ℕ) → eqb n 401 || eqb n 403 ≡ false → (eqb n 401 ≡ false) × (eqb n 403 ≡ false)
neither n h = (ground arith, ground arith)

falls : (a b : Bool) {A : Type 0} → a ≡ false → a && b ≡ true → A
falls a b e h = absurd (ground (arith, e, h))

clashes : (b : Bool) {A : Type 0} → b ≡ true → b ≡ false → A
clashes b e h = absurd (cc)

module _ {P D : Type 0} where
  -- With nothing in between, a request whose answer has the status `st` and a body with a `detail`
  -- sends the browser to `/login` where it is 401 and the detail says that authentication is
  -- required, to `/change-password` where it is 403 and the detail says that the password must be
  -- changed, each from a page whose path does not begin with the target, and nowhere otherwise.
  pub api_fetch-redirects :
      (path : String) (verb : Option String) (body : Option Json) (st : ℕ) (d : Body D)
      (s : World P)
      → (run (start (do r ← api_fetch path verb body; pure tt)) (replies st d) s).browser.visited
        ≡ redirects st (or_else d.detail "") s.browser
  unfolding api_fetch denied_to
  api_fetch-redirects path verb body st d s =
      Answered-run (λ s'. s'.browser.visited ≡ redirects st (or_else d.detail "") s.browser) _ _ s
        (
          λ _. (
            λ x. (λ y. clashes _ y (not_both st _ _ x), λ y. rw x refl),
            λ x. (λ y. rw (x, y) refl, λ y. rw (x, y) refl),
          ),
          λ z.
              let q = neither st z in
              (
                λ x. (λ _. falls (eqb st 401) _ q.0 x, λ _. falls (eqb st 401) _ q.0 x),
                λ _. (λ y. falls (eqb st 403) _ q.1 y, λ _. rw (q.0, q.1) refl),
              ),
        )
