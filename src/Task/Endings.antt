-- ===== src/Task/Endings.antt =====
-- The whole run of one handler while the state changes in any way between its steps, and what
-- `Ensures` says of it.
use sysadmin_mcp_assisstant.Prelude.{◌≡◌, refl, String, true, false}
use sysadmin_mcp_assisstant.Task.{
  Failure, Settled, fulfilled, rejected, Request, Answer, Task, done, modify, get, branch, fetch,
  json, reads,
}
use sysadmin_mcp_assisstant.Task.Outcome.{Ensures}

module _ {S B : Type 0} (Rely : S → Type 0) where
  -- `Ends base t s b s'`: the code `t` at `s`, resumed at `base`, ends at `s'`, where it last resumed
  -- at `b`. At each answer the state is any that `Rely` allows.
  pub data Ends : S → Task S B → S → S → S → Type 0 where
    at_done : {base s : S} → Ends base done s base s
    at_modify :
        {base s b s' : S} {f : S → S} {t : Task S B}
        → Ends base t (f s) b s'
        → Ends base (modify f t) s b s'
    at_get :
        {base s b s' : S} {k : S → Task S B} → Ends base (k s) s b s' → Ends base (get k) s b s'
    at_true :
        {base s b s' : S} {t u : Task S B} → Ends base t s b s' → Ends base (branch true t u) s b s'
    at_false :
        {base s b s' : S} {t u : Task S B}
        → Ends base u s b s'
        → Ends base (branch false t u) s b s'
    at_fetch :
        {base s b s' : S} {r : Request} {k : Answer → Task S B} {e : Failure → Task S B}
        → (x : Answer) (z : S) → Rely z
        → Ends z (k x) z b s'
        → Ends base (fetch r k e) s b s'
    at_fetch_failure :
        {base s b s' : S} {r : Request} {k : Answer → Task S B} {e : Failure → Task S B}
        → (f : Failure) (z : S) → Rely z
        → Ends z (e f) z b s'
        → Ends base (fetch r k e) s b s'
    at_json :
        {base s b s' : S} {r : Request} {k : B → Task S B} {e : Failure → Task S B}
        → (x : B) (z : S) → Rely z
        → Ends z (k x) z b s'
        → Ends base (json r k e) s b s'
    at_json_failure :
        {base s b s' : S} {r : Request} {k : B → Task S B} {e : Failure → Task S B}
        → (f : Failure) (z : S) → Rely z
        → Ends z (e f) z b s'
        → Ends base (json r k e) s b s'
    at_end :
        {base s b s' : S} {r : Request} {l : String} {m : String → String → S → Settled String × S}
        {t : Task S B} {e : Failure → Task S B}
        → (z : S) → Rely z
        → Ends z t z b s'
        → Ends base (reads r l m t e) s b s'
    at_chunk :
        {base s b s' : S} {r : Request} {l : String} {m : String → String → S → Settled String × S}
        {t : Task S B} {e : Failure → Task S B}
        → (c l' : String) (z : S) → Rely z
        → (m c l z).0 ≡ fulfilled l'
        → Ends z (reads r l' m t e) (m c l z).1 b s'
        → Ends base (reads r l m t e) s b s'
    at_chunk_failure :
        {base s b s' : S} {r : Request} {l : String} {m : String → String → S → Settled String × S}
        {t : Task S B} {e : Failure → Task S B}
        → (c : String) (f : Failure) (z : S) → Rely z
        → (m c l z).0 ≡ rejected f
        → Ends z (e f) (m c l z).1 b s'
        → Ends base (reads r l m t e) s b s'
    at_read_failure :
        {base s b s' : S} {r : Request} {l : String} {m : String → String → S → Settled String × S}
        {t : Task S B} {e : Failure → Task S B}
        → (f : Failure) (z : S) → Rely z
        → Ends z (e f) z b s'
        → Ends base (reads r l m t e) s b s'

  -- A handler that ensures `Final` ends with it.
  pub Ensures-Ends :
      (Pause Final : S → S → Type 0) (refl_Pause : (z : S) → Pause z z) {base : S} {t : Task S B}
      {s b s' : S}
      → Ensures Pause Rely Final base t s
      → Ends base t s b s'
      → Final b s'
  Ensures-Ends Pause Final p h at_done = h
  Ensures-Ends Pause Final p h (at_modify d) = Ensures-Ends Pause Final p h d
  Ensures-Ends Pause Final p h (at_get d) = Ensures-Ends Pause Final p h d
  Ensures-Ends Pause Final p h (at_true d) = Ensures-Ends Pause Final p (h.0 refl) d
  Ensures-Ends Pause Final p h (at_false d) = Ensures-Ends Pause Final p (h.1 refl) d
  Ensures-Ends Pause Final p h (at_fetch x z y d) = Ensures-Ends Pause Final p (h.1 x z y) d
  Ensures-Ends Pause Final p h (at_fetch_failure f z y d) = Ensures-Ends Pause Final p (h.2 f z y) d
  Ensures-Ends Pause Final p h (at_json x z y d) = Ensures-Ends Pause Final p (h.1 x z y) d
  Ensures-Ends Pause Final p h (at_json_failure f z y d) = Ensures-Ends Pause Final p (h.2 f z y) d
  Ensures-Ends Pause Final p h (at_end z y d) = Ensures-Ends Pause Final p (h.2 z y) d
  Ensures-Ends Pause Final p h (at_chunk {l} c l' z y q d) =
      Ensures-Ends Pause Final p (h.1 c l z y, h.1, h.2, h.3) d
  Ensures-Ends Pause Final p h (at_chunk_failure {l} c f z y q d) =
      Ensures-Ends Pause Final p (h.3 f z _ y (h.1 c l z y)) d
  Ensures-Ends Pause Final p h (at_read_failure f z y d) =
      Ensures-Ends Pause Final p (h.3 f z z y (p z)) d
