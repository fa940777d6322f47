-- ===== src/Http/Sound.antt =====
-- The rule for `api_fetch` under interleaving, and where it may navigate to.
use sysadmin_mcp_assisstant.Prelude.{String, Bool, Option, ◌≡◌, refl}
use sysadmin_mcp_assisstant.Task.{Failure, Request, Response, Json, Task, branch, modify}
use sysadmin_mcp_assisstant.Task.Keeps.{Keeps}
use sysadmin_mcp_assisstant.Http.{World, Body, visit, on_browser, request_of, api_fetch}

-- `I` and `R` do not see the navigations that are asked for.
module _ {P D : Type 0} (I : World P → Type 0) (R : World P → World P → Type 0)
    (Honest : Request → Body D → Type 0)
    (I_visit : (to : String) (w : World P) → I w → I (on_browser (visit to) w))
    (R_visit : (to : String) (w v : World P) → R w v → R w (on_browser (visit to) v))
    (R_refl : (w : World P) → R w w) (R_trans : (u v w : World P) → R u v → R v w → R u w) where
  -- The two tests of the end, whatever they are: none, one or two navigations are asked for.
  Keeps-redirects :
      (t : Task (World P) (Body D)) (base s : World P) (p q q' : Bool)
      → ((s' : World P) → I s' → R base s' → Keeps I R Honest base t s')
      → I s
      → R base s
      → Keeps I R Honest base
          (branch p
            (modify
              (on_browser (visit "/login"))
              (branch q (modify (on_browser (visit "/change-password")) t) t))
            (branch q' (modify (on_browser (visit "/change-password")) t) t))
          s
  Keeps-redirects t base s p q q' h i r =
      let w = on_browser (visit "/login") s in
      let iw : I w = I_visit _ s i in
      let rw' : R base w = R_visit _ base s r in
      (
        λ _. (λ _. h _ (I_visit _ w iw) (R_visit _ base w rw'), λ _. h w iw rw'),
        λ _. (λ _. h _ (I_visit _ s i) (R_visit _ base s r), λ _. h s i r),
      )

  -- After the answer the code goes on at a state `b` that is later than the one of the request.
  pub Keeps-api_fetch :
      (path : String) (verb : Option String) (body : Option Json)
      (k : Response → Task (World P) (Body D)) (e : Failure → Task (World P) (Body D))
      (base s : World P)
      → I s
      → R base s
      → ((r : Response) (b s' : World P)
          → r.request ≡ request_of path verb body s.browser
          → I s'
          → R b s'
          → R s b
          → Keeps I R Honest b (k r) s')
      → ((f : Failure) (s' : World P) → I s' → R s s' → Keeps I R Honest s' (e f) s')
      → Keeps I R Honest base (api_fetch path verb body k e) s
  unfolding api_fetch
  Keeps-api_fetch path verb body k e base s i q hk he = (
    (i, q),
    λ a t it qt.
        let r : Response = record {
          request = request_of path verb body s.browser;
          status = a.status;
          has_body = a.has_body;
        } in
        (
          λ _. (
            (it, R_refl t),
            λ x u _ iu qu.
                Keeps-redirects (k r) u u _ _ _
                  (λ v iv rv. hk r u v refl iv rv (R_trans s t u qt qu)) iu (R_refl u),
            λ f u iu qu.
                Keeps-redirects (k r) u u _ _ _
                  (λ v iv rv. hk r u v refl iv rv (R_trans s t u qt qu)) iu (R_refl u),
          ),
          λ _. Keeps-redirects (k r) t t _ _ _ (λ v iv rv. hk r t v refl iv rv qt) it (R_refl t),
        ),
    he,
  )
