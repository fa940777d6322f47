-- ===== src/Task/Pool.antt =====
-- Interleavings: the suspended handlers of a page, and the steps in which the user starts a
-- handler or the environment settles what one of them awaits.
use sysadmin_mcp_assisstant.Prelude.{ℕ, true, String, ◌≡◌, List, [], ◌∷◌, ◌++◌, Option, some, none}
use sysadmin_mcp_assisstant.Task.{
  Settled, fulfilled, rejected, Failure, Request, Task, fetch, json, reads, drive, modify, get,
  Answer,
}

-- What the environment answers: to a `fetch`, to a `json()`, to a `read()` of the body's
-- stream (`none` at its end).
pub data Reply (B : Type 0) : Type 0 where
  response : Settled Answer → Reply B
  payload : Settled B → Reply B
  chunk : Settled (Option String) → Reply B

module _ {S B : Type 0} where
  -- After a piece of the stream the loop waits for the next one, or its body has thrown.
  abbrev pub looped :
      Request
      → (String → String → S → Settled String × S)
      → Task S B
      → (Failure → Task S B)
      → Settled String
      → Task S B
  looped r b t e (fulfilled l) = reads r l b t e
  looped r b t e (rejected f) = e f

  -- The code after the `await`; `none` where the task awaits something else.
  abbrev pub answer : Task S B → Reply B → Option (Task S B)
  answer (fetch r k e) (response (fulfilled x)) = some (k x)
  answer (fetch r k e) (response (rejected f)) = some (e f)
  answer (json r k e) (payload (fulfilled x)) = some (k x)
  answer (json r k e) (payload (rejected f)) = some (e f)
  answer (reads r l b t e) (chunk (fulfilled none)) = some t
  answer (reads r l b t e) (chunk (fulfilled (some c))) =
      some (get (λ s. modify (λ _. (b c l s).1) (looped r b t e (b c l s).0)))
  answer (reads r l b t e) (chunk (rejected f)) = some (e f)
  answer t x = none

  -- Settles the task's `await` and runs it to the next one.
  abbrev pub deliver : Task S B → Reply B → S → S × Task S B
  unfolding drive
  deliver t x s = elim (answer t x) [ none ↦ (s, t) | some u ↦ drive u s ]

  -- The state after a list of answers, in order, with nothing in between.
  unfoldable pub run : Task S B → List (Reply B) → S → S
  unfolding drive
  run t [] s = (drive t s).0
  run t (x ∷ xs) s =
      let (s', u) = drive t s in elim (answer u x) [ none ↦ s' | some v ↦ run v xs s' ]

-- The handler waits for the answer to `q`.
abbrev pub Awaits : {S B : Type 0} → Task S B → Request → Type 0
Awaits (fetch r k e) q = r ≡ q
Awaits t q = ⊥

-- The answer to a request and its parsed body.
abbrev pub replies : {B : Type 0} → ℕ → B → List (Reply B)
replies st b =
    response (fulfilled (record { status = st; has_body = true })) ∷ payload (fulfilled b) ∷ []

pub record Session (S B : Type 0) : Type 0 where
  pub now : S
  pub tasks : List (Task S B)

module _ {S B : Type 0} (Honest : Request → B → Type 0) where
  -- What the environment may answer: a body that is read belongs to the request it answers.
  abbrev pub Allowed : Task S B → Reply B → Type 0
  Allowed (json r k e) (payload (fulfilled b)) = Honest r b
  Allowed t x = Unit

-- `Offers s e`: in state `s` the page lets the user cause the event `e`, which runs `handle e`.
module _ {S B : Type 0} (Honest : Request → B → Type 0) (E : Type 0) (Offers : S → E → Type 0)
    (handle : E → S → Task S B) where
  pub data Step : Session S B → Session S B → Type 0 where
    -- The user does what the page offers: the handler runs to its first `await`.
    react :
        (s : S) (ts : List (Task S B)) (e : E)
        → Offers s e
        → {s' : S} {t : Task S B} → drive (handle e s) s ≡ (s', t)
        → Step (record { now = s; tasks = ts }) (record { now = s'; tasks = ts ++ t ∷ [] })
    -- The environment settles what one of the tasks awaits.
    settled :
        (s : S) (before after : List (Task S B)) (t : Task S B) (x : Reply B)
        → {u v : Task S B} {s' : S} → answer t x ≡ some u
        → Allowed Honest t x
        → drive u s ≡ (s', v)
        → Step
            (record { now = s; tasks = before ++ t ∷ after })
            (record { now = s'; tasks = before ++ v ∷ after })

  pub data Reach (x : Session S B) : Session S B → Type 0 where
    here : Reach x x
    next : {y z : Session S B} → Reach x y → Step y z → Reach x z
