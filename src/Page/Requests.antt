-- ===== src/Page/Requests.antt =====
-- The rule for a handler that sends one request and shows its body, with `catch` and `finally`.
use sysadmin_mcp_assisstant.Prelude.{String, Option}
use sysadmin_mcp_assisstant.Task.{Failure, Json, start, ◌>>=◌, expect}
use sysadmin_mcp_assisstant.Task.Outcome.{Anything, Ensures, Ensures-expect}
use sysadmin_mcp_assisstant.Http.{World, visit, on_browser, on_page, api_fetch}
use sysadmin_mcp_assisstant.Http.Ensured.{Ensures-api_fetch}
use sysadmin_mcp_assisstant.Page.{set_page, parsed, guarded}

module _ {P D A : Type 0} (Pause Final : World P → World P → Type 0)
    (Pause_visit : (to : String) (w v : World P) → Pause w v → Pause w (on_browser (visit to) v))
    (Pause_refl : (w : World P) → Pause w w) (path : String) (verb : Option String)
    (body : Option Json) (message : String) (of_value : D → Option A) (show : A → P → P)
    (failed : Failure → P → P) (settled : P → P) where
  -- At the end the page is as after showing the body, or as after the failure, and in both cases as
  -- after `finally`.
  pub Ensures-guarded :
      (s before : World P)
      → Pause before s
      → ((a : A) (b u : World P) → Pause b u → Final b (on_page settled (on_page (show a) u)))
      → ((f : Failure) (b u : World P)
          → Pause b u
          → Final b (on_page settled (on_page (failed f) u)))
      → Ensures Pause Anything Final before
          (start (
            guarded
              (do
                response ← api_fetch path verb body
                data_ ← parsed response message
                a ← expect (of_value data_.value)
                set_page (show a))
              failed
              settled))
          s
  Ensures-guarded s before p shown lost =
      Ensures-api_fetch Pause Anything Final Pause_visit Pause_refl path verb body _ _ before s p
        (λ r b s' _ _ h. (
          h,
          λ x u _. (
            λ _.
                Ensures-expect Pause Anything Final (of_value x.value) _ _ u u
                  (λ a _. shown a u u (Pause_refl u)) (λ f. lost f u u (Pause_refl u)),
            λ _. lost _ u u (Pause_refl u),
          ),
          λ f u _. lost f u u (Pause_refl u),
        ))
        (λ f u _. lost f u u (Pause_refl u))
