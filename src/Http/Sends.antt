-- ===== src/Http/Sends.antt =====
-- `apiFetch` of ui/lib/api.ts sends one request, and nothing where it reads a denial and redirects.
use sysadmin_mcp_assisstant.Prelude.{String, Option, none, refl}
use sysadmin_mcp_assisstant.Task.{Failure, Answer, Request, Response, Json, Task, drive}
use sysadmin_mcp_assisstant.Task.Sends.{Silent, SendsOnce}
use sysadmin_mcp_assisstant.Http.{World, Body, request_of, api_fetch}

module _ {P D : Type 0} (path : String) (body : Option Json)
    (k : Response → Task (World P) (Body D)) (e : Failure → Task (World P) (Body D))
    (hk : (r : Response) → Silent (k r)) (he : (f : Failure) → Silent (e f)) where
  -- After the denial is read, or not, the code goes on through the two redirects.
  abbrev Redirected : Request → Answer → Type 0
  Redirected q x =
      let r : Response = record { request = q; status = x.status; has_body = x.has_body } in
      (World P → Silent (k r) × Silent (k r)) × (World P → Silent (k r) × Silent (k r))

  goes_on : (q : Request) (x : Answer) → Redirected q x
  goes_on q x = (λ _. (hk _, hk _), λ _. (hk _, hk _))

  pub SendsOnce-api_fetch :
      (verb : Option String) (s : World P)
      → SendsOnce (drive (api_fetch path verb body k e) s).1 (request_of path verb body s.browser)
  unfolding api_fetch drive
  SendsOnce-api_fetch verb s =
      (refl, λ x. ((λ _ _. goes_on _ x, λ _ _. goes_on _ x), λ _. goes_on _ x), he)

  pub Silent-api_fetch : Silent (api_fetch path none body k e)
  unfolding api_fetch
  Silent-api_fetch s = (refl, λ x. ((λ _ _. goes_on _ x, λ _ _. goes_on _ x), λ _. goes_on _ x), he)
