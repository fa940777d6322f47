-- ===== src/Remediation/Restarts.antt =====
-- Approvals in ui/app/remediation/page.tsx: what confirming a restart sends, and what is left of the
-- approval.
use sysadmin_mcp_assisstant.Prelude.{Bool, true, false, none, some, ◌≡◌, refl, sym}
use mathlib.Core.Path.{subst}
use sysadmin_mcp_assisstant.Task.{text, object, field, close, start, drive}
use sysadmin_mcp_assisstant.Task.Sends.{SendsOnce, Silent-expect}
use sysadmin_mcp_assisstant.Http.Sends.{SendsOnce-api_fetch}
use sysadmin_mcp_assisstant.Task.Outcome.{Anything, Ensures}
use sysadmin_mcp_assisstant.Http.{request_of}
use sysadmin_mcp_assisstant.Page.Requests.{Ensures-guarded}
use sysadmin_mcp_assisstant.Remediation.{Preview, State, outcome_of, execute_on, execute}

-- The preview that is shown stays while the handler waits.
abbrev pub Shown : State → State → Type 0
Shown b s = s.page.preview ≡ b.page.preview

-- At the end nothing is left to confirm, and the page is not busy.
abbrev pub Spent : State → State → Type 0
Spent b s = (s.page.preview ≡ none) × (s.page.busy ≡ false)

execute_on_lem :
    (q : Preview) (busy : Bool) (s : State)
    → busy ≡ false
    → Ensures Shown Anything Spent s (start (execute_on (some q) busy)) s
execute_on_lem q busy s idle = (
  λ x. absurd (cc),
  λ _.
      Ensures-guarded Shown Spent (λ _ _ _ h. h) (λ _. refl) _ _ _ _ outcome_of _ _ _ _ s refl
        (λ _ _ _ _. (refl, refl)) (λ _ _ _ _. (refl, refl)),
)

execute-SendsOnce :
    (q : Preview) (busy : Bool) (s : State)
    → busy ≡ false
    → SendsOnce (drive (start (execute_on (some q) busy)) s).1 (
        request_of "/api/remediation/restart/execute"
          (some "POST")
          (some (object (field "approval_token" (text q.approval_token) close)))
          s.browser)
unfolding drive
execute-SendsOnce q true s idle = absurd (cc)
execute-SendsOnce q false s idle =
    SendsOnce-api_fetch _ _ _ _
      (λ r. (λ x. (Silent-expect (outcome_of x.value) _ _ (λ _. tt) (λ _. tt), tt), λ f. tt))
      (λ f. tt) _ _

-- Where a restart is previewed and the page is not busy, confirming it sends one POST, whose body is
-- the preview's approval token, and nothing but GETs after it, whatever is answered; and whatever the
-- backend answers, and whatever happens in between, the handler leaves the preview alone while it
-- waits, and at its end no preview, and so no approval token, is left and the page is not busy.
pub execute_spends_restart :
    (q : Preview) (s : State)
    → s.page.preview ≡ some q
    → s.page.busy ≡ false
    → SendsOnce (drive (start (execute s.page)) s).1 (
        request_of "/api/remediation/restart/execute"
          (some "POST")
          (some (object (field "approval_token" (text q.approval_token) close)))
          s.browser)
      × Ensures Shown Anything Spent s (start (execute s.page)) s
unfolding execute
execute_spends_restart q s shown idle = (
  subst
      (λ o. SendsOnce (drive (start (execute_on o s.page.busy)) s).1 (
        request_of "/api/remediation/restart/execute" (some "POST")
          (some (object (field "approval_token" (text q.approval_token) close))) s.browser))
      (sym shown) (execute-SendsOnce q s.page.busy s idle),
  subst (λ o. Ensures Shown Anything Spent s (start (execute_on o s.page.busy)) s) (sym shown)
      (execute_on_lem q s.page.busy s idle),
)
