-- ===== src/Scripts/Polling.antt =====
-- The timer in `ScriptPage` of ui/app/dynamic/page.tsx, when the job that it asks for is no longer
-- the one that runs.
use sysadmin_mcp_assisstant.Prelude.{ℕ, String, true, ◌≡◌, refl, ◌<◌, eqb, arith, ap}
use sysadmin_mcp_assisstant.Task.{start}
use sysadmin_mcp_assisstant.Task.Outcome.{Anything, Ensures, Ensures-expect}
use sysadmin_mcp_assisstant.Http.Ensured.{Ensures-api_fetch}
use sysadmin_mcp_assisstant.Scripts.{Scripts, State, job_of, poll}

-- Where the code resumed at `b` after its run of the effect was ended, the page is as it was there.
abbrev pub Idle : ℕ → State → State → Type 0
Idle n b s = n < b.page.polls → s.page ≡ b.page

clash :
    (n : ℕ) (b s : State)
    → Idle n b s
    → eqb n s.page.polls ≡ true
    → {A : Type 0} → n < b.page.polls
    → A
clash n b s p e lt = absurd (ground (arith, e, ap (λ (x : Scripts). x.polls) (p lt)))

-- Once the polling effect has been ended, or started again for another job or state, what is still
-- to come of a tick of the earlier timer leaves the page alone, whatever the backend answers and
-- whatever else has happened.
pub poll_superseded :
    (n : ℕ) (id : String) (s : State)
    → Ensures (Idle n) Anything (Idle n) s (start (poll n id s.page)) s
unfolding poll
poll_superseded n id s =
    Ensures-api_fetch (Idle n) Anything (Idle n) (λ _ _ _ p. p) (λ _ _. refl) _ _ _ _ _ s _
      (λ _. refl)
      (λ r b s' _ _ p. (
        λ _. (
          p,
          λ x u _.
              Ensures-expect (Idle n) Anything (Idle n) (job_of x.value) _ _ u u
                (λ j _. (λ e. clash n u u (λ _. refl) e, λ _ _. refl)) (λ f _. refl),
          λ f u _ _. refl,
        ),
        λ _. p,
      ))
      (λ f u _ _. refl)
