-- ===== src/Http/Ensured.antt =====
-- The rule for `api_fetch` in what a handler ensures by itself.
use sysadmin_mcp_assisstant.Prelude.{String, Bool, Option, ◌≡◌, refl}
use sysadmin_mcp_assisstant.Task.{Failure, Response, Json, Task, branch, modify}
use sysadmin_mcp_assisstant.Task.Outcome.{Ensures}
use sysadmin_mcp_assisstant.Http.{World, Body, visit, on_browser, request_of, api_fetch}

module _ {P D : Type 0} (Pause : World P → World P → Type 0) (Rely : World P → Type 0)
    (Final : World P → World P → Type 0)
    (Pause_visit : (to : String) (w v : World P) → Pause w v → Pause w (on_browser (visit to) v))
    (Pause_refl : (w : World P) → Pause w w) where
  abbrev Wp : World P → Task (World P) (Body D) → World P → Type 0
  Wp = Ensures Pause Rely Final

  Ensures-redirects :
      (t : Task (World P) (Body D)) (base s : World P) (p q q' : Bool)
      → ((s' : World P) → Pause base s' → Wp base t s')
      → Pause base s
      → Wp base
          (branch p
            (modify
              (on_browser (visit "/login"))
              (branch q (modify (on_browser (visit "/change-password")) t) t))
            (branch q' (modify (on_browser (visit "/change-password")) t) t))
          s
  Ensures-redirects t base s p q q' h r =
      let w = on_browser (visit "/login") s in
      let rw' : Pause base w = Pause_visit _ base s r in
      (
        λ _. (λ _. h _ (Pause_visit _ base w rw'), λ _. h w rw'),
        λ _. (λ _. h _ (Pause_visit _ base s r), λ _. h s r),
      )

  pub Ensures-api_fetch :
      (path : String) (verb : Option String) (body : Option Json)
      (k : Response → Task (World P) (Body D)) (e : Failure → Task (World P) (Body D))
      (base s : World P)
      → Pause base s
      → ((r : Response) (b s' : World P)
          → r.request ≡ request_of path verb body s.browser
          → Rely b
          → Pause b s'
          → Wp b (k r) s')
      → ((f : Failure) (s' : World P) → Rely s' → Wp s' (e f) s')
      → Wp base (api_fetch path verb body k e) s
  unfolding api_fetch
  Ensures-api_fetch path verb body k e base s q hk he = (
    q,
    λ a t y.
        let r : Response = record {
          request = request_of path verb body s.browser;
          status = a.status;
          has_body = a.has_body;
        } in
        (
          λ _. (
            Pause_refl t,
            λ x u y'.
                Ensures-redirects (k r) u u _ _ _ (λ v rv. hk r u v refl y' rv) (Pause_refl u),
            λ f u y'.
                Ensures-redirects (k r) u u _ _ _ (λ v rv. hk r u v refl y' rv) (Pause_refl u),
          ),
          λ _. Ensures-redirects (k r) t t _ _ _ (λ v rv. hk r t v refl y rv) (Pause_refl t),
        ),
    he,
  )
