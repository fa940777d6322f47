-- ===== src/Page/Exclusive/Handlers.antt =====
-- The handlers that several pages share, in their roles: the first load, which asks who is signed in, stores
-- the token and shows one list, and the requests that are posted and show an answer.
use sysadmin_mcp_assisstant.Prelude.{
  String, Bool, true, false, not, ◌≡◌, refl, Option, none, some, or_else,
}
use sysadmin_mcp_assisstant.Task.{
  Failure, Json, start, ok, pure, ◌>>=◌, ◌>>◌, ite, expect, await_json, attempt,
}
use sysadmin_mcp_assisstant.Task.Roles.{Plays, Plays-expect}
use sysadmin_mcp_assisstant.Http.{World, api_fetch}
use sysadmin_mcp_assisstant.Page.{set_page, store_csrf, require_ok, parsed, guarded}
use sysadmin_mcp_assisstant.Page.Exclusive.{
  other, working, Does, Begins, roles, Calm, Calm-get, Calm-value, Works-post,
}

module _ {P D A : Type 0} (busy : P → Bool) (path message : String) (token_of : D → Option String)
    (of : D → Option A) (show : A → P → P) (failed : Failure → P → P)
    (show_keeps : (a : A) (p : P) → busy (show a p) ≡ busy p)
    (failed_keeps : (f : Failure) (p : P) → busy (failed f p) ≡ busy p) where
  pub Calm-load :
      (s : World P)
      → Calm busy {D = D} s
          (start (
            attempt
              (do
                me ← api_fetch "/api/auth/me" none none
                ite (not (ok me)) (pure tt) (do
                  body ← await_json me
                  token ← expect (token_of body.value)
                  store_csrf token
                  response ← api_fetch path none none
                  data_ ← parsed response message
                  a ← expect (of data_.value)
                  set_page (show a)))
              (λ reason. set_page (failed reason))))
          s
  Calm-load s =
      Calm-get busy _ _ _ s s refl
        (λ r b t got d. (
          λ _. (tt, d),
          λ _.
              Calm-value busy r token_of _ _ b t got d
                (λ token z.
                  Calm-get busy _ _ _ z _ refl
                    (λ r' b' t' got' d'. (
                      (tt, tt, d'),
                      got',
                      λ x u _ _ _. (
                        λ _.
                            Plays-expect (roles busy) (Does busy other) other (of x.value) _ _ u u
                              (λ a _. (tt, show_keeps a u.page)) (λ f. (tt, failed_keeps f u.page)),
                        λ _. (tt, failed_keeps _ u.page),
                      ),
                      λ f u _ _. (tt, failed_keeps f u.page),
                    ))
                    (λ f u. (tt, failed_keeps f u.page)))
                (λ f z. (tt, failed_keeps f z.page)),
        ))
        (λ f z. (tt, failed_keeps f z.page))

module _ {P D A : Type 0} (busy : P → Bool) (path message : String) (body : Option Json)
    (of : D → Option A) (show : A → P → P) (failed : Failure → P → P) (settled : P → P) where
  -- A POST whose answer is shown.
  pub Works-show :
      (base s : World P)
      → busy base.page ≡ false
      → busy s.page ≡ true
      → Plays
          (roles busy {D = D})
          (Begins busy working)
          working
          base
          (start (
            guarded
              (do
                response ← api_fetch path (some "POST") body
                data_ ← parsed response message
                a ← expect (of data_.value)
                set_page (show a))
              failed
              settled))
          s
  Works-show base s idle on =
      Works-post busy _ _ _ _ base s idle on
        (λ r b t h. (
          (tt, h, tt),
          tt,
          λ x u _ _ _. (
            λ _.
                Plays-expect (roles busy) (Does busy working) working (of x.value) _ _ u u
                  (λ _ _. (tt, tt)) (λ _. (tt, tt)),
            λ _. (tt, tt),
          ),
          λ _ _ _ _. (tt, tt),
        ))
        (λ _ _ _. (tt, tt))

  -- One whose answer changes the page in any case.
  pub Works-receive :
      (received : P → P) (base s : World P)
      → busy base.page ≡ false
      → busy s.page ≡ true
      → Plays
          (roles busy {D = D})
          (Begins busy working)
          working
          base
          (start (
            guarded
              (do
                response ← api_fetch path (some "POST") body
                data_ ← await_json response
                set_page received
                require_ok (ok response) (or_else data_.detail message)
                a ← expect (of data_.value)
                set_page (show a))
              failed
              settled))
          s
  Works-receive received base s idle on =
      Works-post busy _ _ _ _ base s idle on
        (λ r b t h. (
          (tt, h, tt),
          tt,
          λ x u _ _ _. (
            λ _.
                Plays-expect (roles busy) (Does busy working) working (of x.value) _ _ u _
                  (λ _ _. (tt, tt)) (λ _. (tt, tt)),
            λ _. (tt, tt),
          ),
          λ _ _ _ _. (tt, tt),
        ))
        (λ _ _ _. (tt, tt))
