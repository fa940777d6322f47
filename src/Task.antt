-- ===== src/Task.antt =====
-- Event handlers of the pages as values: what a handler does up to its next `await`, and what it
-- does with each answer. `S` is the state that the handler reads and writes, `B` what the parsed
-- body of an answer holds.
pub mod Pool
pub mod Keeps
pub mod Outcome
pub mod Answered
pub mod Endings
pub mod Roles
pub mod Sends
use sysadmin_mcp_assisstant.Prelude.{
  ℕ, String, Bool, true, false, ◌&&◌, List, ◌∷◌, Option, none, some, ◌≡◌, refl, ◌⊎◌, inl, inr, ltb,
  leb,
}

-- What a promise is rejected with: an `Error` and its message, or another value.
pub data Failure : Type 0 where
  error : String → Failure
  other : Failure

-- `reason instanceof Error ? reason.message : fallback`
abbrev pub message_of : Failure → String → String
message_of (error m) fallback = m
message_of other fallback = fallback

pub data Settled (A : Type 0) : Type 0 where
  fulfilled : A → Settled A
  rejected : Failure → Settled A

pub Settled-cases :
    {A : Type 0} (x : Settled A)
    → ((a : A) × (x ≡ fulfilled a)) ⊎ ((f : Failure) × (x ≡ rejected f))
Settled-cases (fulfilled a) = inl (a, refl)
Settled-cases (rejected f) = inr (f, refl)

-- The JSON of a request's body.
mutual
  pub data Json : Type 0 where
    text : String → Json
    number : ℕ → Json
    flag : Bool → Json
    array : Items → Json
    object : Fields → Json

  pub data Items : Type 0 where
    end : Items
    item : Json → Items → Items

  pub data Fields : Type 0 where
    close : Fields
    field : String → Json → Fields → Fields

abbrev pub texts : List String → Items
texts List.[] = end
texts (s ∷ ss) = item (text s) (texts ss)

pub record Request : Type 0 where
  pub path : String
  pub verb : String
  -- the `x-csrf-token` header
  pub csrf : Option String
  pub body : Option Json

-- What the environment answers a request with: a status, and whether there is a body to stream.
pub record Answer : Type 0 where
  pub status : ℕ
  pub has_body : Bool

-- The answer beside the request that it belongs to.
pub record Response : Type 0 where
  pub request : Request
  pub status : ℕ
  pub has_body : Bool

-- `response.ok`
abbrev pub ok : Response → Bool
ok r = leb 200 r.status && ltb r.status 300

pub data Task (S B : Type 0) : Type 0 where
  done : Task S B
  modify : (S → S) → Task S B → Task S B
  get : (S → Task S B) → Task S B
  branch : Bool → Task S B → Task S B → Task S B
  -- `await fetch(…)` and `await response.json()`: what follows the value, and what follows a
  -- rejection
  fetch : Request → (Answer → Task S B) → (Failure → Task S B) → Task S B
  json : Request → (B → Task S B) → (Failure → Task S B) → Task S B
  -- `while (true) { const { value, done } = await reader.read(); if (done) break; … }`: the loop's
  -- variable, what a piece of the stream does to it and to the state, what follows the loop, and
  -- what follows a rejection, of a read or of the loop's body
  reads :
      Request
      → String
      → (String → String → S → Settled String × S)
      → Task S B
      → (Failure → Task S B)
      → Task S B

-- A handler's code: what follows its value, and what follows a `throw`.
abbrev pub Code : Type 0 → Type 0 → Type 0 → Type 0
Code S B A = (A → Task S B) → (Failure → Task S B) → Task S B

module _ {S B : Type 0} where
  abbrev pub pure : {A : Type 0} → A → Code S B A
  pure a k e = k a

  abbrev pub throw : {A : Type 0} → Failure → Code S B A
  throw f k e = e f

  abbrev pub update : (S → S) → Code S B (Unit {0})
  update f k e = modify f (k tt)

  abbrev pub state : Code S B S
  state k e = get k

  infixl 5 ◌>>=◌ ◌>>◌
  abbrev pub ◌>>=◌ : {A C : Type 0} → Code S B A → (A → Code S B C) → Code S B C
  ◌>>=◌ m f k e = m (λ a. f a k e) e

  abbrev pub ◌>>◌ : {C : Type 0} → Code S B (Unit {0}) → Code S B C → Code S B C
  ◌>>◌ m n k e = m (λ _. n k e) e

  -- `if (b) m else n`
  abbrev pub ite : {A : Type 0} → Bool → Code S B A → Code S B A → Code S B A
  ite b m n k e = branch b (m k e) (n k e)

  abbrev pub await_fetch : Request → Code S B Response
  await_fetch r k e =
      fetch r (λ a. k (record { request = r; status = a.status; has_body = a.has_body })) e

  abbrev pub await_json : Response → Code S B B
  await_json r k e = json r.request k e

  abbrev pub await_reads :
      Response → String → (String → String → S → Settled String × S) → Code S B (Unit {0})
  await_reads r local body k e = reads r.request local body (k tt) e

  -- `try { m } catch (reason) { h(reason) }` and `try { m } finally { f }`
  abbrev pub attempt : {A : Type 0} → Code S B A → (Failure → Code S B A) → Code S B A
  attempt m h k e = m k (λ f. h f k e)

  abbrev pub finally : {A : Type 0} → Code S B A → Code S B (Unit {0}) → Code S B A
  finally m f k e = m (λ a. f (λ _. k a) e) (λ r. f (λ _. e r) e)

  -- The value that a body holds, where it has the shape that the code takes it for.
  unfoldable pub expect : {A : Type 0} → Option A → Code S B A
  expect none k e = e (error "unexpected body")
  expect (some a) k e = k a

  -- A handler that is called with `void`.
  abbrev pub start : Code S B (Unit {0}) → Task S B
  start m = m (λ _. done) (λ _. done)

  -- Runs to the next `await`.
  unfoldable pub drive : Task S B → S → S × Task S B
  drive done s = (s, done)
  drive (modify f t) s = drive t (f s)
  drive (get k) s = drive (k s) s
  drive (branch b t u) s = elim b [ true ↦ drive t s | false ↦ drive u s ]
  drive (fetch r k e) s = (s, fetch r k e)
  drive (json r k e) s = (s, json r k e)
  drive (reads r l b t e) s = (s, reads r l b t e)
