-- ===== src/Page/Exclusive/Sole.antt =====
-- What the roles of a page come to: how many of its handlers in flight wait for the answer to a POST.
use sysadmin_mcp_assisstant.Prelude.{
  ℕ, Bool, false, if◌then◌else◌, ◌≡◌, refl, ap, List, [], ◌∷◌, All, ◌==◌, ◌+◌, ◌≤◌, arith,
}
use sysadmin_mcp_assisstant.Task.{Task, fetch, json, reads, done, modify, get, branch}
use sysadmin_mcp_assisstant.Task.Pool.{Session, Reach}
use sysadmin_mcp_assisstant.Task.Roles.{Plays, Promises, Cast}
use sysadmin_mcp_assisstant.Task.Roles.Casts.{Reach-Fine}
use sysadmin_mcp_assisstant.Http.{World, Body}
use sysadmin_mcp_assisstant.Page.Exclusive.{Role, working, other, Apart, Begins, roles, lawful}

module _ {S B : Type 0} where
  -- Whether the handler waits for the answer to a POST, for its body, or for its stream.
  abbrev pub posting : Task S B → Bool
  posting (fetch r k e) = r.verb == "POST"
  posting (json r k e) = r.verb == "POST"
  posting (reads r l b t e) = r.verb == "POST"
  posting t = false

  -- How many of the handlers do.
  abbrev pub posts : List (Task S B) → ℕ
  posts [] = 0
  posts (t ∷ ts) = (if posting t then 1 else 0) + posts ts

module _ {P D : Type 0} (busy : P → Bool) where
  other-posting : (t : Task (World P) (Body D)) → Promises (roles busy) other t → posting t ≡ false
  other-posting (fetch r k e) w = ap (λ v. v == "POST") w.0
  other-posting (json r k e) w = ap (λ v. v == "POST") w.0
  other-posting (reads r l b t e) w = ap (λ v. v == "POST") w.0
  other-posting done w = refl
  other-posting (modify f t) w = refl
  other-posting (get k) w = refl
  other-posting (branch b t u) w = refl

  others-posts :
      (s : World P) (ks : List Role) (ts : List (Task (World P) (Body D)))
      → All (Apart working) ks
      → Cast (roles busy) s ks ts
      → posts ts ≡ 0
  others-posts s [] [] a c = refl
  others-posts s (other ∷ ks) (t ∷ ts) a c =
      ground (arith, other-posting t c.0.1, others-posts s ks ts a.1 c.2)
  others-posts s (working ∷ ks) (t ∷ ts) a c = absurd a.0
  others-posts s [] (t ∷ ts) a c = absurd c
  others-posts s (j ∷ ks) [] a c = absurd c

  Cast-posts :
      (s : World P) (ks : List Role) (ts : List (Task (World P) (Body D)))
      → Cast (roles busy) s ks ts
      → posts ts ≤ (if busy s.page then 1 else 0)
  Cast-posts s [] [] c = omega arith
  Cast-posts s (working ∷ ks) (t ∷ ts) c = ground (arith, c.0.0, others-posts s ks ts c.1 c.2)
  Cast-posts s (other ∷ ks) (t ∷ ts) c =
      ground (arith, other-posting t c.0.1, Cast-posts s ks ts c.2)
  Cast-posts s [] (t ∷ ts) c = absurd c
  Cast-posts s (j ∷ ks) [] c = absurd c

  module _ {E : Type 0} (Offers : World P → E → Type 0)
      (handle : E → World P → Task (World P) (Body D))
      (handles : (e : E) (s : World P)
        → Offers s e
        → (k : Role) × Plays (roles busy) (Begins busy k) k s (handle e s) s) where
    pub Runs-posts :
        (w : World P) (y : Session (World P) (Body D))
        → Reach (λ r b. Unit {0}) E Offers handle (record { now = w; tasks = [] }) y
        → posts y.tasks ≤ (if busy y.now.page then 1 else 0)
    Runs-posts w y runs =
        let fine =
          Reach-Fine (roles busy) (lawful busy) Offers handle (λ e s _ o. handles e s o)
            (record { cast = []; state_Invariant = tt; plays = tt }) runs in
        Cast-posts y.now fine.cast y.tasks fine.plays
