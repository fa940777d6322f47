-- ===== src/Password/Submission.antt =====
-- The form of ui/app/change-password/page.tsx.
use sysadmin_mcp_assisstant.Prelude.{true, false, some, ◌==◌, ◌≡◌, refl, ◌⊎◌, inl, inr, Bool-cases}
use sysadmin_mcp_assisstant.Task.{done, drive, start}
use sysadmin_mcp_assisstant.Task.{text, object, field, close}
use sysadmin_mcp_assisstant.Task.Sends.{SendsOnce}
use sysadmin_mcp_assisstant.Http.Sends.{SendsOnce-api_fetch}
use sysadmin_mcp_assisstant.Task.Outcome.{Anything, Ensures}
use sysadmin_mcp_assisstant.Http.{api_fetch, request_of}
use sysadmin_mcp_assisstant.Http.Ensured.{Ensures-api_fetch}
use sysadmin_mcp_assisstant.Password.{State, submit}

submit-SendsOnce :
    (s : State)
    → s.page.next == s.page.confirm ≡ true
    → SendsOnce (drive (start (submit s.page)) s).1 (
        request_of "/api/auth/change-password"
          (some "POST")
          (some (
            object (
              field "current_password"
                (text s.page.current)
                (field "new_password" (text s.page.next) close))))
          s.browser)
unfolding submit drive
submit-SendsOnce s e =
    rw e (SendsOnce-api_fetch _ _ _ _ (λ r. (λ x. (tt, tt), λ f. tt)) (λ f. tt) _ _)

-- Where the new password and its confirmation differ, nothing is sent, the handler ends, and only
-- the error changes; where they agree, one POST is sent, whose body is the current and the new
-- password, and nothing but GETs after it, whatever is answered, and the page is busy.
pub change_gate :
    (s : State)
    → let c = s.page in
      let after = drive (start (submit c)) s in
      ((c.next == c.confirm ≡ false)
        × (after ≡ (record s { page = record c { error = "New passwords do not match." } }, done)))
      ⊎ ((c.next == c.confirm ≡ true)
          × SendsOnce after.1 (
              request_of "/api/auth/change-password"
                (some "POST")
                (some (
                  object (
                    field "current_password"
                      (text c.current)
                      (field "new_password" (text c.next) close))))
                s.browser)
          × (after.0 ≡ record s { page = record c { busy = true; error = "" } }))
unfolding submit drive api_fetch
change_gate s = elim (Bool-cases (s.page.next == s.page.confirm)) [
  | inl e ↦ inr (e, submit-SendsOnce s e, rw e refl)
  | inr e ↦ inl (e, rw e refl)
]

-- What is typed as the new password stays.
abbrev pub Kept : State → State → Type 0
Kept b s = s.page.next ≡ b.page.next

-- Whatever the backend answers, and whatever happens in between, at the end of a submission of
-- passwords that agree the page is not busy, and what was typed as the new password stays as it
-- was where the handler last resumed.
pub change_releases :
    (s : State)
    → s.page.next == s.page.confirm ≡ true
    → Ensures Kept Anything (λ b s'. (s'.page.busy ≡ false) × Kept b s') s (start (submit s.page)) s
unfolding submit
change_releases s agree = (
  λ x. absurd (cc),
  λ _.
      Ensures-api_fetch Kept Anything _ (λ _ _ _ h. h) (λ _. refl) _ _ _ _ _ s _ refl
        (λ r b s' _ _ h.
          (h, λ x u _. (λ _. (refl, refl), λ _. (refl, refl)), λ f u _. (refl, refl)))
        (λ _ _ _. (refl, refl)),
)
