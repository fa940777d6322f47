-- ===== src/AuthGate/Runs.antt =====
-- Runs of the effect in ui/components/auth-gate.tsx that overlap: how each ends.
use sysadmin_mcp_assisstant.Prelude.{
  ℕ, suc, String, true, false, ◌∷◌, eqb, ◌≡◌, refl, ◌⊎◌, inl, inr,
}
use sysadmin_mcp_assisstant.Task.{start}
use sysadmin_mcp_assisstant.Task.Outcome.{Anything, Anytime, Ensures, Ensures-expect}
use sysadmin_mcp_assisstant.AuthGate.{State, identity_of, verify}

-- The page's content is shown, or that the backend is unavailable, or the page is being left.
abbrev pub Resolved : State → State → Type 0
Resolved b s =
    (s.page.ready ≡ true)
    ⊎ (s.page.offline ≡ true)
    ⊎ ((to : String) × (s.browser.visited ≡ to ∷ b.browser.visited))

-- Where the run that resumed at `b` is the latest one, it comes to a result; otherwise it changes
-- nothing.
abbrev pub Ended : ℕ → State → State → Type 0
Ended n b s = (eqb n b.page.runs ≡ true → Resolved b s) × (eqb n b.page.runs ≡ false → s ≡ b)

comes : (n : ℕ) (b s : State) → eqb n b.page.runs ≡ true → Resolved b s → Ended n b s
comes n b s x d = (λ _. d, λ e. absurd (cc))

stale : (n : ℕ) (b : State) → eqb n b.page.runs ≡ false → Ended n b b
stale n b x = (λ e. absurd (cc), λ _. refl)

-- Whatever the backend answers and whatever happens in between, also where other runs start or the
-- effect is cleaned up: a run that is the latest when it resumes last ends with the page shown, with
-- the backend reported unavailable, or with a navigation, so the splash does not stay; a run that
-- has been overtaken changes nothing.
pub verify_ends :
    (path : String) (s : State)
    → Ensures Anytime Anything (Ended (suc s.page.runs)) s (start (verify path)) s
unfolding verify
verify_ends path s =
    let n : ℕ = suc s.page.runs in
    (
      tt,
      λ a u _. (
        λ x. (
          λ _. (λ _. comes n u _ x (inr (inr (_, refl))), λ _. comes n u _ x (inl refl)),
          λ _. (
            λ _. (
              tt,
              λ d v _.
                  Ensures-expect Anytime Anything (Ended n) (identity_of d.value) _ _ v v
                    (λ who _. (
                      λ x. (
                        λ _. comes n v _ x (inr (inr (_, refl))),
                        λ _. (
                          λ _. comes n v _ x (inr (inr (_, refl))),
                          λ _. comes n v _ x (inl refl),
                        ),
                      ),
                      λ x. stale n v x,
                    ))
                    (λ f. (
                      λ x. (λ _. comes n v _ x (inl refl), λ _. comes n v _ x (inr (inl refl))),
                      λ x. stale n v x,
                    )),
              λ f v _. (
                λ x. (λ _. comes n v _ x (inl refl), λ _. comes n v _ x (inr (inl refl))),
                λ x. stale n v x,
              ),
            ),
            λ _. (
              λ x. (λ _. comes n u _ x (inl refl), λ _. comes n u _ x (inr (inl refl))),
              λ x. stale n u x,
            ),
          ),
        ),
        λ x. stale n u x,
      ),
      λ f u _. (
        λ x. (λ _. comes n u _ x (inl refl), λ _. comes n u _ x (inr (inl refl))),
        λ x. stale n u x,
      ),
    )
