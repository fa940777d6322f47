-- ===== src/Task/Outcome.antt =====
-- What a handler ensures by itself, whatever the others do while it waits: `Pause` holds between
-- the state where it resumed and each `await`, and `Final` at its end. Of a state where it resumes
-- only `Rely` is known.
use sysadmin_mcp_assisstant.Prelude.{◌≡◌, refl, Option, some, none, String, true, false}
use sysadmin_mcp_assisstant.Task.{
  Failure, Answer, Task, done, modify, get, branch, fetch, json, reads, expect,
}

-- Nothing is asked of a pause, nothing is known of a state.
abbrev pub Anytime : {S : Type 0} → S → S → Type 0
Anytime b s = Unit {0}

abbrev pub Anything : {S : Type 0} → S → Type 0
Anything s = Unit {0}

module _ {S B : Type 0} (Pause : S → S → Type 0) (Rely : S → Type 0) (Final : S → S → Type 0) where
  abbrev pub Ensures : S → Task S B → S → Type 0
  Ensures base done s = Final base s
  Ensures base (modify f t) s = Ensures base t (f s)
  Ensures base (get k) s = Ensures base (k s) s
  Ensures base (branch b t u) s = (b ≡ true → Ensures base t s) × (b ≡ false → Ensures base u s)
  Ensures base (fetch r k e) s =
      Pause base s
      × ((x : Answer) (s' : S) → Rely s' → Ensures s' (k x) s')
      × ((f : Failure) (s' : S) → Rely s' → Ensures s' (e f) s')
  Ensures base (json r k e) s =
      Pause base s
      × ((x : B) (s' : S) → Rely s' → Ensures s' (k x) s')
      × ((f : Failure) (s' : S) → Rely s' → Ensures s' (e f) s')
  Ensures base (reads r l b t e) s =
      Pause base s
      × ((c l' : String) (s' : S) → Rely s' → Pause s' (b c l' s').1)
      × ((s' : S) → Rely s' → Ensures s' t s')
      × ((f : Failure) (z s' : S) → Rely z → Pause z s' → Ensures z (e f) s')

  pub Ensures-expect :
      {A : Type 0} (o : Option A) (k : A → Task S B) (e : Failure → Task S B) (base s : S)
      → ((a : A) → o ≡ some a → Ensures base (k a) s)
      → ((f : Failure) → Ensures base (e f) s)
      → Ensures base (expect o k e) s
  unfolding expect
  Ensures-expect none k e base s hk he = he _
  Ensures-expect (some a) k e base s hk he = hk a refl
