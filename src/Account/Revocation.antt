-- ===== src/Account/Revocation.antt =====
-- The end of other sessions in ui/app/account/page.tsx.
use sysadmin_mcp_assisstant.Prelude.{
  Bool, true, false, ◌||◌, not, [], ◌∷◌, some, ◌≡◌, refl, ◌⊎◌, inl, inr, Bool-cases,
}
use sysadmin_mcp_assisstant.Task.{Failure, rejected, start, drive, done}
use sysadmin_mcp_assisstant.Task.{text, object, field, close}
use sysadmin_mcp_assisstant.Task.Sends.{SendsOnce, Silent, Silent-expect}
use sysadmin_mcp_assisstant.Http.Sends.{SendsOnce-api_fetch, Silent-api_fetch}
use sysadmin_mcp_assisstant.Task.Pool.{response, run}
use sysadmin_mcp_assisstant.Http.{api_fetch, request_of}
use sysadmin_mcp_assisstant.Account.{
  Session, State, revoke, load, identity_of, sessions_of, events_of,
}

Silent-load : Silent (start load)
unfolding load
Silent-load =
    Silent-api_fetch _ _ _ _
      (λ me. (
        tt,
        (
          λ x.
              Silent-expect (identity_of x.value) _ _
                (λ who.
                  Silent-api_fetch _ _ _ _
                    (λ q.
                      Silent-api_fetch _ _ _ _
                        (λ r. (
                          (
                            λ y.
                                Silent-expect (sessions_of y.value) _ _
                                  (λ _. (
                                    λ z. Silent-expect (events_of z.value) _ _ (λ _. tt) (λ _. tt),
                                    λ _. tt,
                                  ))
                                  (λ _. tt),
                            λ _. tt,
                          ),
                          tt,
                        ))
                        (λ _. tt))
                    (λ _. tt))
                (λ _. tt),
          λ _. tt,
        ),
      ))
      (λ _. tt)

revoke-SendsOnce :
    (x : Session) (agreed : Bool) (s : State)
    → x.current || not agreed ≡ false
    → SendsOnce (drive (start (revoke x agreed)) s).1 (
        request_of "/api/auth/sessions/revoke"
          (some "POST")
          (some (object (field "session_id" (text x.session_id) close)))
          s.browser)
unfolding revoke drive
revoke-SendsOnce x agreed s e =
    rw e (SendsOnce-api_fetch _ _ _ _ (λ r. (tt, Silent-load)) (λ f. tt) _ _)

-- For the operator's own session, or without agreement, nothing happens. For another session and with
-- agreement one POST is sent, whose body is its id, and nothing but GETs after it, whatever is answered; where that request is rejected, because the backend is
-- not reachable, the handler ends with the page as it was, but with no error shown.
pub revoke_gate :
    (x : Session) (agreed : Bool) (f : Failure) (s : State)
    → ((x.current || not agreed ≡ true) × (drive (start (revoke x agreed)) s ≡ (s, done)))
      ⊎ ((x.current || not agreed ≡ false)
          × SendsOnce (drive (start (revoke x agreed)) s).1 (
              request_of "/api/auth/sessions/revoke"
                (some "POST")
                (some (object (field "session_id" (text x.session_id) close)))
                s.browser)
          × (run (start (revoke x agreed)) (response (rejected f) ∷ []) s
              ≡ record s { page = record s.page { error = "" } }))
unfolding revoke drive api_fetch run
revoke_gate x agreed f s = elim (Bool-cases (x.current || not agreed)) [
  | inl e ↦ inl (e, rw e refl)
  | inr e ↦ inr (e, revoke-SendsOnce x agreed s e, rw e refl)
]
