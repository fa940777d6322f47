-- ===== src/AuthGate/Verdict.antt =====
-- What ui/components/auth-gate.tsx makes of the backend's answer.
use sysadmin_mcp_assisstant.Prelude.{
  ℕ, suc, String, Bool, true, false, ◌&&◌, not, ◌∷◌, none, eqb, leb, ltb, ◌==◌, if◌then◌else◌, ◌≡◌,
  refl, ◌⊎◌, inl, inr, arith, eq_iff,
}
use mathlib.Core.Path.{subst}
use sysadmin_mcp_assisstant.Task.{start, expect}
use sysadmin_mcp_assisstant.Task.Pool.{replies, run}
use sysadmin_mcp_assisstant.Task.Answered.{Answered-run}
use sysadmin_mcp_assisstant.Http.{Body}
use sysadmin_mcp_assisstant.AuthGate.{Data, identity, State, verify}

-- What the page does: show its content, go elsewhere, or say that the backend is unavailable.
pub data Verdict : Type 0 where
  opens unavailable : Verdict
  leaves_for : String → Verdict

-- The verdict on an answer's status and on `must_change_password`, for the page at `path`.
abbrev pub verdict : String → ℕ → Bool → Verdict
verdict path st must =
    if eqb st 401
    then (if path == "/login" then opens else leaves_for "/login")
    else if leb 200 st && ltb st 300
    then (if must
        then (if path == "/change-password" then opens else leaves_for "/change-password")
        else (if path == "/login" then leaves_for "/" else opens))
    else (if path == "/login" then opens else unavailable)

-- The state that a verdict comes to.
abbrev pub Comes : Verdict → State → State → Type 0
Comes opens s s' =
    (s'.page.ready ≡ true) × (s'.page.offline ≡ false) × (s'.browser.visited ≡ s.browser.visited)
Comes unavailable s s' =
    (s'.page.ready ≡ false) × (s'.page.offline ≡ true) × (s'.browser.visited ≡ s.browser.visited)
Comes (leaves_for to) s s' =
    (s'.page.ready ≡ false)
    × (s'.page.offline ≡ false)
    × (s'.browser.visited ≡ to ∷ s.browser.visited)

abbrev pub checked : String → Bool → Body Data
checked token must = record { detail = none; value = identity token must }

not-true : (b : Bool) → not b ≡ true → b ≡ false
not-true b h = ground arith

not-false : (b : Bool) → not b ≡ false → b ≡ true
not-false b h = ground arith

-- A run's number is its own.
own : (n : ℕ) {A : Type 0} → eqb (suc n) (suc n) ≡ false → A
own n e = absurd (ground (arith, e))

elsewhere :
    (path : String) {A : Type 0} → path == "/change-password" ≡ true → path == "/login" ≡ true → A
elsewhere path e e' =
    let h : ("/change-password" == "/login") ≡ true =
      subst (λ p. p == "/login" ≡ true) ((eq_iff path _).0 e) e' in
    absurd (cc)

and_left : (a b : Bool) → a && b ≡ true → a ≡ true
and_left a b h = ground arith

and_right : (a b : Bool) → a && b ≡ true → b ≡ true
and_right a b h = ground arith

-- An operator who need not change the password, or is on the page that does so.
and_not : (a b : Bool) → a && not b ≡ false → (a ≡ false) ⊎ ((a ≡ true) × (b ≡ true))
and_not true b h = inr (refl, not-false b h)
and_not false b h = inl refl

-- With nothing in between, the gate comes to the verdict on the answer, whatever its status, the
-- page's path and `must_change_password` are.
pub verify_decides :
    (path token : String) (st : ℕ) (must : Bool) (s : State)
    → Comes (verdict path st must) s (run (start (verify path)) (replies st (checked token must)) s)
unfolding verify expect
verify_decides path token st must s =
    Answered-run (Comes (verdict path st must) s) (replies st (checked token must))
      (start (verify path)) s
      (
        λ _. (
          λ x. (
            λ y. rw (x, not-true (path == "/login") y) (refl, refl, refl),
            λ y. rw (x, not-false (path == "/login") y) (refl, refl, refl),
          ),
          λ x. (
            λ y. (
              λ _. (
                λ m.
                    rw
                      (
                        x,
                        y,
                        and_left must (not (path == "/change-password")) m,
                        not-true (path == "/change-password") (and_right must _ m),
                      )
                      (refl, refl, refl),
                λ m. (
                  λ l. elim (and_not must (path == "/change-password") m) [
                    | inl a ↦ rw (x, y, a, l) (refl, refl, refl)
                    | inr ab ↦ elsewhere path ab.1 l
                  ],
                  λ l. elim (and_not must (path == "/change-password") m) [
                    | inl a ↦ rw (x, y, a, l) (refl, refl, refl)
                    | inr ab ↦ rw (x, y, ab.0, ab.1) (refl, refl, refl)
                  ],
                ),
              ),
              λ e. own _ e,
            ),
            λ y. (
              λ _. (λ z. rw (x, y, z) (refl, refl, refl), λ z. rw (x, y, z) (refl, refl, refl)),
              λ e. own _ e,
            ),
          ),
        ),
        λ e. own _ e,
      )
