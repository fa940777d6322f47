-- ===== src/Page.antt =====
-- What the handlers of the pages share: `set…` of a state hook, the test of a response, and the
-- `try … catch … finally` around a request.
pub mod Requests
pub mod Exclusive
use sysadmin_mcp_assisstant.Prelude.{String, Bool, some, or_else}
use sysadmin_mcp_assisstant.Task.{
  Failure, error, Code, pure, throw, update, ◌>>=◌, ◌>>◌, ite, ok, Response, await_json, attempt,
  finally,
}
use sysadmin_mcp_assisstant.Http.{World, Body, on_browser, on_page, visit}

module _ {P D : Type 0} where
  abbrev pub set_page : (P → P) → Code (World P) (Body D) (Unit {0})
  set_page f = update (on_page f)

  -- `if (!response.ok) throw new Error(message)`
  abbrev pub require_ok : Bool → String → Code (World P) (Body D) (Unit {0})
  require_ok okay message = ite okay (pure tt) (throw (error message))

  -- `sessionStorage.setItem('sentinel-csrf', token)`
  abbrev pub store_csrf : String → Code (World P) (Body D) (Unit {0})
  store_csrf token = update (on_browser (λ b. record b { csrf = some token }))

  -- `router.replace(to)`
  abbrev pub go_to : String → Code (World P) (Body D) (Unit {0})
  go_to to = update (on_browser (visit to))

  -- `const data = await response.json(); if (!response.ok) throw new Error(data.detail ?? message)`
  abbrev pub parsed : Response → String → Code (World P) (Body D) (Body D)
  parsed r message = do
    data_ ← await_json r
    require_ok (ok r) (or_else data_.detail message)
    pure data_

  -- `try { m } catch (reason) { h(reason) } finally { f }`
  abbrev pub guarded :
      Code (World P) (Body D) (Unit {0})
      → (Failure → P → P)
      → (P → P)
      → Code (World P) (Body D) (Unit {0})
  guarded m h f = finally (attempt m (λ reason. set_page (h reason))) (set_page f)
