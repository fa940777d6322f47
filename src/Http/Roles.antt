-- ===== src/Http/Roles.antt =====
-- The rule for `api_fetch` of a handler in a role.
use sysadmin_mcp_assisstant.Prelude.{String, Bool, Option, ◌≡◌, refl}
use sysadmin_mcp_assisstant.Task.{Failure, Response, Json, Task, branch, modify}
use sysadmin_mcp_assisstant.Task.Roles.{Roles, Plays}
use sysadmin_mcp_assisstant.Http.{World, Body, visit, on_browser, request_of, api_fetch}

-- What a role speaks of does not see the navigations that are asked for.
pub record Blind {P D : Type 0} (p : Roles (World P) (Body D)) (k : p.Role) : Type 0 where
  pub invariant :
      (to : String) (w : World P) → p.Invariant w → p.Invariant (on_browser (visit to) w)
  pub holds : (to : String) (w : World P) → p.Holds k w → p.Holds k (on_browser (visit to) w)
  pub does : (to : String) (w v : World P) → p.Does k w v → p.Does k w (on_browser (visit to) v)
  pub does_nothing : (w : World P) → p.Holds k w → p.Does k w w

module _ {P D : Type 0} (p : Roles (World P) (Body D)) (k : p.Role) (l : Blind p k) where
  open p use {Invariant, Holds, Does, May}

  Plays-redirects :
      (t : Task (World P) (Body D)) (base s : World P) (a b c : Bool)
      → ((s' : World P) → Invariant s' → Holds k s' → Does k base s' → Plays p (Does k) k base t s')
      → Invariant s
      → Holds k s
      → Does k base s
      → Plays p
          (Does k)
          k
          base
          (branch a
            (modify
              (on_browser (visit "/login"))
              (branch b (modify (on_browser (visit "/change-password")) t) t))
            (branch c (modify (on_browser (visit "/change-password")) t) t))
          s
  Plays-redirects t base s a b c h i r d =
      let w = on_browser (visit "/login") s in
      let iw : Invariant w = l.invariant _ s i in
      let rw' : Holds k w = l.holds _ s r in
      let dw : Does k base w = l.does _ base s d in
      (
        λ _. (
          λ _. h _ (l.invariant _ w iw) (l.holds _ w rw') (l.does _ base w dw),
          λ _. h w iw rw' dw,
        ),
        λ _. (λ _. h _ (l.invariant _ s i) (l.holds _ s r) (l.does _ base s d), λ _. h s i r d),
      )

  pub Plays-api_fetch :
      (g : World P → World P → Type 0) (path : String) (verb : Option String) (body : Option Json)
      (f : Response → Task (World P) (Body D)) (e : Failure → Task (World P) (Body D))
      (base s : World P)
      → Invariant s
      → Holds k s
      → g base s
      → May k (request_of path verb body s.browser)
      → ((r : Response) (b s' : World P)
          → r.request ≡ request_of path verb body s.browser
          → Invariant s'
          → Holds k s'
          → Does k b s'
          → Plays p (Does k) k b (f r) s')
      → ((x : Failure) (z : World P) → Invariant z → Holds k z → Plays p (Does k) k z (e x) z)
      → Plays p g k base (api_fetch path verb body f e) s
  unfolding api_fetch
  Plays-api_fetch g path verb body f e base s i h d m hf he = (
    (i, h, d),
    m,
    λ a t it ht.
        let r : Response = record {
          request = request_of path verb body s.browser;
          status = a.status;
          has_body = a.has_body;
        } in
        (
          λ _. (
            (it, ht, l.does_nothing t ht),
            m,
            λ x u _ iu hu.
                Plays-redirects (f r) u u _ _ _ (λ v iv hv dv. hf r u v refl iv hv dv) iu hu
                  (l.does_nothing u hu),
            λ x u iu hu.
                Plays-redirects (f r) u u _ _ _ (λ v iv hv dv. hf r u v refl iv hv dv) iu hu
                  (l.does_nothing u hu),
          ),
          λ _.
              Plays-redirects (f r) t t _ _ _ (λ v iv hv dv. hf r t v refl iv hv dv) it ht
                (l.does_nothing t ht),
        ),
    he,
  )
