-- ===== src/Task/Roles.antt =====
-- Handlers in flight that play different roles: what one of them may do to the state depends on its
-- role, and what it relies on is an assertion that the others, in roles apart from its own, leave
-- standing. A handler that has ended plays the role `rest`.
pub mod Casts
use sysadmin_mcp_assisstant.Prelude.{
  ◌≡◌, refl, List, [], ◌∷◌, ◌++◌, some, none, Option, All, true, false, String, ◌⊎◌, inl, inr,
  All-append,
}
use mathlib.Core.Path.{subst}
use mathlib.Core.Option.{some-injective}
use sysadmin_mcp_assisstant.Task.{
  Failure, Settled, fulfilled, rejected, Request, Answer, Task, done, modify, get, branch, fetch,
  json, reads, drive, expect,
}
use sysadmin_mcp_assisstant.Task.Pool.{
  Reply, response, payload, chunk, answer, looped, Session, Allowed, Step, react, settled, Reach,
  here, next,
}

-- The roles of a page: `Holds k s`, what a handler in role `k` relies on while it waits; `Does k s s'`,
-- what it may do where it resumes; `Begins k s s'`, what its first steps may do; `May k r`, which
-- requests it may wait for.
pub record Roles (S B : Type 0) : Type 1 where
  pub Role : Type 0
  pub rest : Role
  pub Invariant : S → Type 0
  pub Holds : Role → S → Type 0
  pub Does : Role → S → S → Type 0
  pub Begins : Role → S → S → Type 0
  pub May : Role → Request → Type 0
  pub Apart : Role → Role → Type 0
  pub Honest : Request → B → Type 0

-- What the roles of a page satisfy.
pub record Lawful {S B : Type 0} (p : Roles S B) : Type 0 where
  pub rest_holds : (s : S) → p.Holds p.rest s
  pub rest_apart : (k : p.Role) → p.Apart p.rest k
  pub apart_sym : (k j : p.Role) → p.Apart k j → p.Apart j k
  pub does_nothing : (k : p.Role) (s : S) → p.Holds k s → p.Does k s s
  pub does_stands :
      (k j : p.Role) (s s' : S) → p.Apart k j → p.Does k s s' → p.Holds j s → p.Holds j s'
  pub begins_stands :
      (k j : p.Role) (s s' : S) → p.Begins k s s' → p.Holds j s → p.Apart j k × p.Holds j s'

module _ {S B : Type 0} (p : Roles S B) where
  open p use {Role, rest, Invariant, Holds, Does, Begins, May, Apart, Honest}

  abbrev pub Sound : (S → S → Type 0) → Role → S → S → Type 0
  Sound g k base s = Invariant s × Holds k s × g base s

  -- From `base` the code `t` at `s`, in role `k`, does what `g` allows up to its next `await`, and
  -- later what its role allows.
  abbrev pub Plays : (S → S → Type 0) → Role → S → Task S B → S → Type 0
  Plays g k base done s = Invariant s × g base s
  Plays g k base (modify f t) s = Plays g k base t (f s)
  Plays g k base (get f) s = Plays g k base (f s) s
  Plays g k base (branch b t u) s =
      (b ≡ true → Plays g k base t s) × (b ≡ false → Plays g k base u s)
  Plays g k base (fetch r f e) s =
      Sound g k base s
      × May k r
      × ((x : Answer) (z : S) → Invariant z → Holds k z → Plays (Does k) k z (f x) z)
      × ((x : Failure) (z : S) → Invariant z → Holds k z → Plays (Does k) k z (e x) z)
  Plays g k base (json r f e) s =
      Sound g k base s
      × May k r
      × ((x : B) (z : S) → Honest r x → Invariant z → Holds k z → Plays (Does k) k z (f x) z)
      × ((x : Failure) (z : S) → Invariant z → Holds k z → Plays (Does k) k z (e x) z)
  Plays g k base (reads r l b t e) s =
      Sound g k base s
      × May k r
      × ((c m : String) (z : S) → Invariant z → Holds k z → Sound (Does k) k z (b c m z).1)
      × ((z : S) → Invariant z → Holds k z → Plays (Does k) k z t z)
      × ((x : Failure) (z s' : S)
          → Invariant s'
          → Holds k s'
          → Does k z s'
          → Plays (Does k) k z (e x) s')

  -- What a suspended handler still promises.
  abbrev pub Promises : Role → Task S B → Type 0
  Promises k (fetch r f e) =
      May k r
      × ((x : Answer) (z : S) → Invariant z → Holds k z → Plays (Does k) k z (f x) z)
      × ((x : Failure) (z : S) → Invariant z → Holds k z → Plays (Does k) k z (e x) z)
  Promises k (json r f e) =
      May k r
      × ((x : B) (z : S) → Honest r x → Invariant z → Holds k z → Plays (Does k) k z (f x) z)
      × ((x : Failure) (z : S) → Invariant z → Holds k z → Plays (Does k) k z (e x) z)
  Promises k (reads r l b t e) =
      May k r
      × ((c m : String) (z : S) → Invariant z → Holds k z → Sound (Does k) k z (b c m z).1)
      × ((z : S) → Invariant z → Holds k z → Plays (Does k) k z t z)
      × ((x : Failure) (z s' : S)
          → Invariant s'
          → Holds k s'
          → Does k z s'
          → Plays (Does k) k z (e x) s')
  Promises k t = Unit

  abbrev pub Waits : Role → S → Task S B → Type 0
  Waits k s t = Holds k s × Promises k t

  -- The handlers in flight with their roles, every two of them apart.
  abbrev pub Cast : S → List Role → List (Task S B) → Type 0
  Cast s [] [] = Unit
  Cast s (k ∷ ks) (t ∷ ts) = Waits k s t × All (Apart k) ks × Cast s ks ts
  Cast s ks ts = ⊥

  pub record Fine (x : Session S B) : Type 0 where
    pub cast : List Role
    pub state_Invariant : Invariant x.now
    pub plays : Cast x.now cast x.tasks

  -- After a segment that `g` allows, the handler waits in role `k`, or rests.
  abbrev pub Moved : (S → S → Type 0) → Role → S → S × Task S B → Type 0
  Moved g k base q =
      Invariant q.0 × g base q.0 × ((j : Role) × Waits j q.0 q.1 × ((j ≡ k) ⊎ (j ≡ rest)))

  module _ (l : Lawful p) where
    pub Plays-drive :
        (g : S → S → Type 0) (k : Role) (base : S) (t : Task S B) (s : S)
        → Plays g k base t s
        → Moved g k base (drive t s)
    unfolding drive
    Plays-drive g k base done s h = (h.0, h.1, (rest, (l.rest_holds s, tt), inr refl))
    Plays-drive g k base (modify f t) s h = Plays-drive g k base t (f s) h
    Plays-drive g k base (get f) s h = Plays-drive g k base (f s) s h
    Plays-drive g k base (branch true t u) s h = Plays-drive g k base t s (h.0 refl)
    Plays-drive g k base (branch false t u) s h = Plays-drive g k base u s (h.1 refl)
    Plays-drive g k base (fetch r f e) s h = (h.0.0, h.0.2, (k, (h.0.1, (h.1, h.2, h.3)), inl refl))
    Plays-drive g k base (json r f e) s h = (h.0.0, h.0.2, (k, (h.0.1, (h.1, h.2, h.3)), inl refl))
    Plays-drive g k base (reads r m b t e) s h =
        (h.0.0, h.0.2, (k, (h.0.1, (h.1, h.2, h.3, h.4)), inl refl))

    Plays-looped :
        (k : Role) (r : Request) (b : String → String → S → Settled String × S) (t : Task S B)
        (e : Failure → Task S B) (z : S) (x : Settled String) (s' : S)
        → Promises k (reads r "" b t e)
        → Sound (Does k) k z s'
        → Plays (Does k) k z (looped r b t e x) s'
    Plays-looped k r b t e z (fulfilled m) s' w h = (h, w.0, w.1, w.2, w.3)
    Plays-looped k r b t e z (rejected f) s' w h = w.3 f z s' h.0 h.1 h.2

    -- A handler that gets an answer plays on.
    pub Promises-answer :
        (k : Role) (t : Task S B) (x : Reply B) (u : Task S B) (s : S)
        → answer t x ≡ some u
        → Allowed Honest t x
        → Promises k t
        → Invariant s
        → Holds k s
        → Plays (Does k) k s u s
    Promises-answer k (fetch r f e) (response (fulfilled x)) u s q a w i h =
        subst (λ v. Plays (Does k) k s v s) (some-injective _ _ q) (w.1 x s i h)
    Promises-answer k (fetch r f e) (response (rejected x)) u s q a w i h =
        subst (λ v. Plays (Does k) k s v s) (some-injective _ _ q) (w.2 x s i h)
    Promises-answer k (json r f e) (payload (fulfilled x)) u s q a w i h =
        subst (λ v. Plays (Does k) k s v s) (some-injective _ _ q) (w.1 x s a i h)
    Promises-answer k (json r f e) (payload (rejected x)) u s q a w i h =
        subst (λ v. Plays (Does k) k s v s) (some-injective _ _ q) (w.2 x s i h)
    Promises-answer k (reads r m b t e) (chunk (fulfilled none)) u s q a w i h =
        subst (λ v. Plays (Does k) k s v s) (some-injective _ _ q) (w.2 s i h)
    Promises-answer k (reads r m b t e) (chunk (fulfilled (some c))) u s q a w i h =
        subst (λ v. Plays (Does k) k s v s) (some-injective _ _ q)
          (Plays-looped k r b t e s (b c m s).0 (b c m s).1 w (w.1 c m s i h))
    Promises-answer k (reads r m b t e) (chunk (rejected x)) u s q a w i h =
        subst (λ v. Plays (Does k) k s v s) (some-injective _ _ q)
          (w.3 x s s i h (l.does_nothing k s h))
    Promises-answer k (fetch r f e) (payload x) u s q a w i h = absurd (cc)
    Promises-answer k (fetch r f e) (chunk x) u s q a w i h = absurd (cc)
    Promises-answer k (json r f e) (response x) u s q a w i h = absurd (cc)
    Promises-answer k (json r f e) (chunk x) u s q a w i h = absurd (cc)
    Promises-answer k (reads r m b t e) (response x) u s q a w i h = absurd (cc)
    Promises-answer k (reads r m b t e) (payload x) u s q a w i h = absurd (cc)
    Promises-answer k done x u s q a w i h = absurd (cc)
    Promises-answer k (modify f t) x u s q a w i h = absurd (cc)
    Promises-answer k (get f) x u s q a w i h = absurd (cc)
    Promises-answer k (branch b t v) x u s q a w i h = absurd (cc)

  pub Plays-expect :
      {A : Type 0} (g : S → S → Type 0) (k : Role) (o : Option A) (f : A → Task S B)
      (e : Failure → Task S B) (base s : S)
      → ((a : A) → o ≡ some a → Plays g k base (f a) s)
      → ((x : Failure) → Plays g k base (e x) s)
      → Plays g k base (expect o f e) s
  unfolding expect
  Plays-expect g k none f e base s hf he = he _
  Plays-expect g k (some a) f e base s hf he = hf a refl
