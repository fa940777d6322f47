-- ===== src/Security/Checks.antt =====
-- The checks that ui/app/security/page.tsx runs.
use sysadmin_mcp_assisstant.Prelude.{false, ◌||◌, none, some, ◌≡◌, refl, ◌⊎◌, inl, inr}
use sysadmin_mcp_assisstant.Prelude.Text.{is_blank}
use sysadmin_mcp_assisstant.Task.{start}
use sysadmin_mcp_assisstant.Task.Outcome.{Anything, Ensures}
use sysadmin_mcp_assisstant.Page.Requests.{Ensures-guarded}
use sysadmin_mcp_assisstant.Security.{Report, State, report_of, inspect}

-- The report that is shown stays while the handler waits, or is cleared.
abbrev pub Old : State → State → Type 0
Old b s = (s.page.report ≡ b.page.report) ⊎ (s.page.report ≡ none)

-- Where a VM is chosen and no check is running, then whatever the backend answers, and whatever
-- happens in between, a check ends with the page not busy, and with a report, with none, or with the
-- one that was there when the handler last resumed.
pub inspect_ends :
    (s : State)
    → is_blank s.page.host || s.page.busy ≡ false
    → Ensures Old Anything
        (λ b s'. (s'.page.busy ≡ false) × (((r : Report) × (s'.page.report ≡ some r)) ⊎ Old b s'))
        s
        (start (inspect s.page))
        s
unfolding inspect
inspect_ends s can = (
  λ x. absurd (cc),
  λ _.
      Ensures-guarded Old _ (λ _ _ _ h. h) (λ _. inl refl) _ _ _ _ report_of _ _ _ _ s (inr refl)
        (λ r _ _ _. (refl, inl (r, refl))) (λ _ _ _ h. (refl, inr h)),
)
