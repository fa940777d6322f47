-- ===== src/Task/Sends.antt =====
-- What a handler sends: one request that is not a GET, and after it none.
use sysadmin_mcp_assisstant.Prelude.{Option, some, none, ◌≡◌}
use sysadmin_mcp_assisstant.Task.{
  Failure, Answer, Request, Task, done, modify, get, branch, fetch, json, reads, expect,
}

module _ {S B : Type 0} where
  -- On no path, and in no state, does the code send anything but GETs.
  abbrev pub Silent : Task S B → Type 0
  Silent done = Unit
  Silent (modify f t) = Silent t
  Silent (get k) = (s : S) → Silent (k s)
  Silent (branch b t u) = Silent t × Silent u
  Silent (fetch r k e) =
      (r.verb ≡ "GET") × ((x : Answer) → Silent (k x)) × ((f : Failure) → Silent (e f))
  Silent (json r k e) = ((x : B) → Silent (k x)) × ((f : Failure) → Silent (e f))
  Silent (reads r l b t e) = Silent t × ((f : Failure) → Silent (e f))

  -- The handler waits for the answer to `q`, and whatever that is sends nothing but GETs afterwards.
  abbrev pub SendsOnce : Task S B → Request → Type 0
  SendsOnce (fetch r k e) q =
      (r ≡ q) × ((x : Answer) → Silent (k x)) × ((f : Failure) → Silent (e f))
  SendsOnce t q = ⊥

  pub Silent-expect :
      {A : Type 0} (o : Option A) (k : A → Task S B) (e : Failure → Task S B)
      → ((a : A) → Silent (k a))
      → ((f : Failure) → Silent (e f))
      → Silent (expect o k e)
  unfolding expect
  Silent-expect none k e hk he = he _
  Silent-expect (some a) k e hk he = hk a
