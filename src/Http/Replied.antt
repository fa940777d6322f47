-- ===== src/Http/Replied.antt =====
-- `apiFetch` of ui/lib/api.ts on an answer that denies nothing: the caller goes on with the answer.
use sysadmin_mcp_assisstant.Prelude.{
  ℕ, String, Bool, true, false, ◌&&◌, ◌||◌, [], ◌∷◌, Option, eqb, ◌≡◌, arith,
}
use sysadmin_mcp_assisstant.Task.{Failure, fulfilled, Response, Json, Task}
use sysadmin_mcp_assisstant.Task.Pool.{payload, replies}
use sysadmin_mcp_assisstant.Task.Answered.{Answered}
use sysadmin_mcp_assisstant.Http.{World, Body, request_of, api_fetch}

denies : (a b c : Bool) → a || b ≡ false → a && c ≡ true → ⊥
denies a b c out x = ground (arith, out, x)

denies_too : (a b c : Bool) → a || b ≡ false → b && c ≡ true → ⊥
denies_too a b c out x = ground (arith, out, x)

module _ {P D : Type 0} (Q : World P → Type 0) (st : ℕ) (d : Body D)
    (other : eqb st 401 || eqb st 403 ≡ false) where
  pub Answered-api_fetch :
      (path : String) (verb : Option String) (body : Option Json)
      (k : Response → Task (World P) (Body D)) (e : Failure → Task (World P) (Body D)) (s : World P)
      → Answered Q
          (payload (fulfilled d) ∷ [])
          (k (record {
            request = request_of path verb body s.browser;
            status = st;
            has_body = true;
          }))
          s
      → Answered Q (replies st d) (api_fetch path verb body k e) s
  unfolding api_fetch
  Answered-api_fetch path verb body k e s h = (
    λ x. absurd (cc),
    λ _. (
      λ x. absurd (denies (eqb st 401) (eqb st 403) _ other x),
      λ _. (λ x. absurd (denies_too (eqb st 401) (eqb st 403) _ other x), λ _. h),
    ),
  )
