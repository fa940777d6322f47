-- ===== src/Task/Keeps.antt =====
-- Invariants of handlers under interleaving: a handler keeps `I` from one `await` to the next,
-- changes the state only along `R`, and relies on the other handlers to do the same.
use sysadmin_mcp_assisstant.Prelude.{
  ◌≡◌, refl, List, [], ◌∷◌, ◌++◌, some, none, Option, All, All-append, true, false, String,
}
use mathlib.Core.Path.{subst}
use mathlib.Core.Option.{some-injective}
use sysadmin_mcp_assisstant.Task.{
  Failure, Settled, fulfilled, rejected, Request, Answer, Task, done, modify, get, branch, fetch,
  json, reads, drive, expect,
}
use sysadmin_mcp_assisstant.Task.Pool.{
  Reply, response, payload, chunk, answer, looped, Session, Allowed, Step, react, settled, Reach,
  here, next,
}

module _ {S B : Type 0} (I : S → Type 0) (R : S → S → Type 0) (Honest : Request → B → Type 0) where
  -- From `base`, where the handler resumed, the code `t` at `s` keeps the invariant.
  abbrev pub Keeps : S → Task S B → S → Type 0
  Keeps base done s = I s × R base s
  Keeps base (modify f t) s = Keeps base t (f s)
  Keeps base (get k) s = Keeps base (k s) s
  Keeps base (branch b t u) s = (b ≡ true → Keeps base t s) × (b ≡ false → Keeps base u s)
  Keeps base (fetch r k e) s =
      (I s × R base s)
      × ((x : Answer) (s' : S) → I s' → R s s' → Keeps s' (k x) s')
      × ((f : Failure) (s' : S) → I s' → R s s' → Keeps s' (e f) s')
  Keeps base (json r k e) s =
      (I s × R base s)
      × ((x : B) (s' : S) → Honest r x → I s' → R s s' → Keeps s' (k x) s')
      × ((f : Failure) (s' : S) → I s' → R s s' → Keeps s' (e f) s')
  Keeps base (reads r l b t e) s =
      (I s × R base s)
      × ((c l' : String) (s' : S) → I s' → R s s' → I (b c l' s').1 × R s' (b c l' s').1)
      × ((s' : S) → I s' → R s s' → Keeps s' t s')
      × ((f : Failure) (z s' : S) → I s' → R s z → R z s' → Keeps z (e f) s')

  -- What a suspended task still promises, from `s` on.
  abbrev pub Waits : S → Task S B → Type 0
  Waits s (fetch r k e) =
      ((x : Answer) (s' : S) → I s' → R s s' → Keeps s' (k x) s')
      × ((f : Failure) (s' : S) → I s' → R s s' → Keeps s' (e f) s')
  Waits s (json r k e) =
      ((x : B) (s' : S) → Honest r x → I s' → R s s' → Keeps s' (k x) s')
      × ((f : Failure) (s' : S) → I s' → R s s' → Keeps s' (e f) s')
  Waits s (reads r l b t e) =
      ((c l' : String) (s' : S) → I s' → R s s' → I (b c l' s').1 × R s' (b c l' s').1)
      × ((s' : S) → I s' → R s s' → Keeps s' t s')
      × ((f : Failure) (z s' : S) → I s' → R s z → R z s' → Keeps z (e f) s')
  Waits s t = Unit

  abbrev Driven : S → S × Task S B → Type 0
  Driven base p = I p.0 × R base p.0 × Waits p.0 p.1

  pub Keeps-drive : (base : S) (t : Task S B) (s : S) → Keeps base t s → Driven base (drive t s)
  unfolding drive
  Keeps-drive base done s h = (h.0, h.1, tt)
  Keeps-drive base (modify f t) s h = Keeps-drive base t (f s) h
  Keeps-drive base (get k) s h = Keeps-drive base (k s) s h
  Keeps-drive base (branch true t u) s h = Keeps-drive base t s (h.0 refl)
  Keeps-drive base (branch false t u) s h = Keeps-drive base u s (h.1 refl)
  Keeps-drive base (fetch r k e) s h = (h.0.0, h.0.1, (h.1, h.2))
  Keeps-drive base (json r k e) s h = (h.0.0, h.0.1, (h.1, h.2))
  Keeps-drive base (reads r l b t e) s h = (h.0.0, h.0.1, (h.1, h.2, h.3))

  module _ (trans : (x y z : S) → R x y → R y z → R x z) where
    Waits-later : (t : Task S B) (s s' : S) → R s s' → Waits s t → Waits s' t
    Waits-later done s s' q w = tt
    Waits-later (modify f t) s s' q w = tt
    Waits-later (get k) s s' q w = tt
    Waits-later (branch b t u) s s' q w = tt
    Waits-later (fetch r k e) s s' q w =
        (λ x u i p. w.0 x u i (trans s s' u q p), λ x u i p. w.1 x u i (trans s s' u q p))
    Waits-later (json r k e) s s' q w =
        (λ x u h i p. w.0 x u h i (trans s s' u q p), λ x u i p. w.1 x u i (trans s s' u q p))
    Waits-later (reads r l b t e) s s' q w = (
      λ c m u i p. w.0 c m u i (trans s s' u q p),
      λ u i p. w.1 u i (trans s s' u q p),
      λ f z u i p p'. w.2 f z u i (trans s s' z q p) p',
    )

    All-later : (ts : List (Task S B)) (s s' : S) → R s s' → All (Waits s) ts → All (Waits s') ts
    All-later [] s s' q w = tt
    All-later (t ∷ ts) s s' q w = (Waits-later t s s' q w.0, All-later ts s s' q w.1)

    All-split :
        (P : Task S B → Type 0) (xs ys : List (Task S B)) → All P (xs ++ ys) → All P xs × All P ys
    All-split P [] ys h = (tt, h)
    All-split P (x ∷ xs) ys h = let (a, b) = All-split P xs ys h.1 in ((h.0, a), b)

    Keeps-looped :
        (r : Request) (b : String → String → S → Settled String × S) (t : Task S B)
        (e : Failure → Task S B) (s z : S) (x : Settled String) (s' : S)
        → Waits s (reads r "" b t e)
        → R s z
        → I s' × R z s'
        → Keeps z (looped r b t e x) s'
    Keeps-looped r b t e s z (fulfilled l) s' w q h =
        let w' = Waits-later (reads r "" b t e) s s' (trans s z s' q h.1) w in (h, w'.0, w'.1, w'.2)
    Keeps-looped r b t e s z (rejected f) s' w q h = w.2 f z s' h.0 q h.1

    -- A task that gets an answer goes on keeping the invariant.
    Waits-answer :
        (t : Task S B) (x : Reply B) (u : Task S B) (s : S)
        → answer t x ≡ some u
        → Allowed Honest t x
        → Waits s t
        → I s
        → R s s
        → Keeps s u s
    Waits-answer (fetch r k e) (response (fulfilled x)) u s p a w i q =
        subst (λ v. Keeps s v s) (some-injective _ _ p) (w.0 x s i q)
    Waits-answer (fetch r k e) (response (rejected f)) u s p a w i q =
        subst (λ v. Keeps s v s) (some-injective _ _ p) (w.1 f s i q)
    Waits-answer (json r k e) (payload (fulfilled x)) u s p a w i q =
        subst (λ v. Keeps s v s) (some-injective _ _ p) (w.0 x s a i q)
    Waits-answer (json r k e) (payload (rejected f)) u s p a w i q =
        subst (λ v. Keeps s v s) (some-injective _ _ p) (w.1 f s i q)
    Waits-answer (reads r l b t e) (chunk (fulfilled none)) u s p a w i q =
        subst (λ v. Keeps s v s) (some-injective _ _ p) (w.1 s i q)
    Waits-answer (reads r l b t e) (chunk (fulfilled (some c))) u s p a w i q =
        subst (λ v. Keeps s v s) (some-injective _ _ p)
          (Keeps-looped r b t e s s (b c l s).0 (b c l s).1 w q (w.0 c l s i q))
    Waits-answer (reads r l b t e) (chunk (rejected f)) u s p a w i q =
        subst (λ v. Keeps s v s) (some-injective _ _ p) (w.2 f s s i q q)
    Waits-answer (fetch r k e) (payload x) u s p a w i q = absurd (cc)
    Waits-answer (fetch r k e) (chunk x) u s p a w i q = absurd (cc)
    Waits-answer (json r k e) (response x) u s p a w i q = absurd (cc)
    Waits-answer (json r k e) (chunk x) u s p a w i q = absurd (cc)
    Waits-answer (reads r l b t e) (response x) u s p a w i q = absurd (cc)
    Waits-answer (reads r l b t e) (payload x) u s p a w i q = absurd (cc)
    Waits-answer done x u s p a w i q = absurd (cc)
    Waits-answer (modify f t) x u s p a w i q = absurd (cc)
    Waits-answer (get k) x u s p a w i q = absurd (cc)
    Waits-answer (branch b t v) x u s p a w i q = absurd (cc)

    -- The invariant of a page: of its state, and of the handlers that wait.
    pub record Fine (x : Session S B) : Type 0 where
      pub state_I : I x.now
      pub tasks_wait : All (Waits x.now) x.tasks

    module _ (start : (s : S) → I s → R s s) {E : Type 0} (Offers : S → E → Type 0)
        (handle : E → S → Task S B)
        (handles : (e : E) (s : S) → I s → Offers s e → Keeps s (handle e s) s) where
      Step-Fine : {x y : Session S B} → Step Honest E Offers handle x y → Fine x → Fine y
      Step-Fine (react s ts e o {s'} {t} d) f =
          let h : Driven s (s', t) =
            subst (Driven s) d (Keeps-drive s (handle e s) s (handles e s f.state_I o)) in
          record {
            state_I = h.0;
            tasks_wait =
                All-append (Waits s') ts (t ∷ []) (All-later ts s s' h.1 f.tasks_wait) (h.2, tt);
          }
      Step-Fine (settled s before after t x {u} {v} {s'} a ok d) f =
          let (wb, wt) = All-split (Waits s) before (t ∷ after) f.tasks_wait in
          let h : Driven s (s', v) =
            subst (Driven s) d
              (Keeps-drive s u s (Waits-answer t x u s a ok wt.0 f.state_I (start s f.state_I))) in
          record {
            state_I = h.0;
            tasks_wait =
                All-append (Waits s') before (v ∷ after) (All-later before s s' h.1 wb)
                  (h.2, All-later after s s' h.1 wt.1);
          }

      -- Whatever the user does and in whatever order the answers come.
      pub Reach-Fine : {x y : Session S B} → Fine x → Reach Honest E Offers handle x y → Fine y
      Reach-Fine f here = f
      Reach-Fine f (next r st) = Step-Fine st (Reach-Fine f r)

  pub Keeps-expect :
      {A : Type 0} (o : Option A) (k : A → Task S B) (e : Failure → Task S B) (base s : S)
      → ((a : A) → o ≡ some a → Keeps base (k a) s)
      → ((f : Failure) → Keeps base (e f) s)
      → Keeps base (expect o k e) s
  unfolding expect
  Keeps-expect none k e base s hk he = he _
  Keeps-expect (some a) k e base s hk he = hk a refl
