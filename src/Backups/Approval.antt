-- ===== src/Backups/Approval.antt =====
-- Approvals in ui/app/backups/page.tsx: what a preview, its password and its token come to.
use sysadmin_mcp_assisstant.Prelude.{Bool, false, ◌≡◌, refl, none, some, sym}
use mathlib.Core.Path.{subst}
use sysadmin_mcp_assisstant.Task.{start}
use sysadmin_mcp_assisstant.Task.Outcome.{Anything, Ensures}
use sysadmin_mcp_assisstant.Page.Requests.{Ensures-guarded}
use sysadmin_mcp_assisstant.Backups.{Preview, State, outcome_of, execute_on, execute}

-- The preview that is shown stays while the handler waits.
abbrev pub Shown : State → State → Type 0
Shown b s = s.page.preview ≡ b.page.preview

-- At the end nothing is left to confirm, and the page is not busy.
abbrev pub Spent : State → State → Type 0
Spent b s = (s.page.preview ≡ none) × (s.page.busy ≡ false)

execute_on_lem :
    (p : Preview) (busy : Bool) (s : State)
    → busy ≡ false
    → Ensures Shown Anything Spent s (start (execute_on (some p) busy)) s
execute_on_lem p busy s idle = (
  λ x. absurd (cc),
  λ _.
      Ensures-guarded Shown Spent (λ _ _ _ h. h) (λ _. refl) _ _ _ _ outcome_of _ _ _ _ s refl
        (λ _ _ _ _. (refl, refl)) (λ _ _ _ _. (refl, refl)),
)

-- Where a preview is shown and the page is not busy, then whatever the backend answers to the
-- confirmation, and whatever happens in between, the handler leaves the preview alone while it
-- waits, and at its end no preview, and so no approval token, is left and the page is not busy.
pub execute_spends_approval :
    (p : Preview) (s : State)
    → s.page.preview ≡ some p
    → s.page.busy ≡ false
    → Ensures Shown Anything Spent s (start (execute s.page)) s
unfolding execute
execute_spends_approval p s shown idle =
    subst (λ o. Ensures Shown Anything Spent s (start (execute_on o s.page.busy)) s) (sym shown)
      (execute_on_lem p s.page.busy s idle)
