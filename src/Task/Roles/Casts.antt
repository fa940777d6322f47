-- ===== src/Task/Roles/Casts.antt =====
-- Handlers in roles, under interleaving: each step of a page keeps its cast.
use sysadmin_mcp_assisstant.Prelude.{List, [], ◌∷◌, ◌++◌, All, All-append, inl, inr, sym}
use mathlib.Core.Path.{subst}
use sysadmin_mcp_assisstant.Task.{Task}
use sysadmin_mcp_assisstant.Task.Pool.{Session, Step, react, settled, Reach, here, next}
use sysadmin_mcp_assisstant.Task.Roles.{
  Roles, Lawful, Plays, Waits, Cast, Fine, Moved, Plays-drive, Promises-answer,
}

module _ {S B : Type 0} (p : Roles S B) (l : Lawful p) where
  open p use {Role, rest, Invariant, Holds, Does, Begins, Apart, Honest}

  Cast-Does :
      (k : Role) (s s' : S) (ks : List Role) (ts : List (Task S B))
      → All (Apart k) ks
      → Does k s s'
      → Cast p s ks ts
      → Cast p s' ks ts
  Cast-Does k s s' [] [] a d c = tt
  Cast-Does k s s' (j ∷ ks) (t ∷ ts) a d c =
      ((l.does_stands k j s s' a.0 d c.0.0, c.0.1), c.1, Cast-Does k s s' ks ts a.1 d c.2)
  Cast-Does k s s' [] (t ∷ ts) a d c = absurd c
  Cast-Does k s s' (j ∷ ks) [] a d c = absurd c

  Cast-Begins :
      (k : Role) (s s' : S) (ks : List Role) (ts : List (Task S B))
      → Begins k s s'
      → Cast p s ks ts
      → Cast p s' ks ts × All (λ j. Apart j k) ks
  Cast-Begins k s s' [] [] d c = (tt, tt)
  Cast-Begins k s s' (j ∷ ks) (t ∷ ts) d c =
      let (apart, holds) = l.begins_stands k j s s' d c.0.0 in
      let (c', a) = Cast-Begins k s s' ks ts d c.2 in (((holds, c.0.1), c.1, c'), (apart, a))
  Cast-Begins k s s' [] (t ∷ ts) d c = absurd c
  Cast-Begins k s s' (j ∷ ks) [] d c = absurd c

  Apart-from_rest : (ks : List Role) → All (λ j. Apart j rest) ks
  Apart-from_rest [] = tt
  Apart-from_rest (j ∷ ks) = (l.apart_sym rest j (l.rest_apart j), Apart-from_rest ks)

  rest_from : (ks : List Role) → All (Apart rest) ks
  rest_from [] = tt
  rest_from (j ∷ ks) = (l.rest_apart j, rest_from ks)

  Cast-concat :
      (k : Role) (s : S) (t : Task S B) (ks : List Role) (ts : List (Task S B))
      → All (λ j. Apart j k) ks
      → Waits p k s t
      → Cast p s ks ts
      → Cast p s (ks ++ k ∷ []) (ts ++ t ∷ [])
  Cast-concat k s t [] [] a w c = (w, tt, tt)
  Cast-concat k s t (j ∷ ks) (u ∷ ts) a w c =
      (c.0, All-append (Apart j) ks (k ∷ []) c.1 (a.0, tt), Cast-concat k s t ks ts a.1 w c.2)
  Cast-concat k s t [] (u ∷ ts) a w c = absurd c
  Cast-concat k s t (j ∷ ks) [] a w c = absurd c

  -- The cast after a step of one handler, in role `k`: whatever was apart from all roles still is.
  abbrev Recast : S → S → List Role → List (Task S B) → Type 0
  Recast s s' ks ts =
      (k : Role) × (ks' : List Role) × Invariant s'
      × Does k s s'
      × Cast p s' ks' ts
      × ((j : Role) → All (Apart j) ks → Apart j k × All (Apart j) ks')

  Cast-moves :
      (before after : List (Task S B)) (t v : Task S B) (s s' : S) (ks : List Role)
      → ((k : Role) → Waits p k s t → Moved p (Does k) k s (s', v))
      → Cast p s ks (before ++ t ∷ after)
      → Recast s s' ks (before ++ v ∷ after)
  Cast-moves [] after t v s s' (k ∷ ks) move c =
      let (i, d, (j, w, same)) = move k c.0 in
      elim same [
        | inl e ↦ (
          k,
          k ∷ ks,
          i,
          d,
          (subst (λ r. Waits p r s' v) e w, c.1, Cast-Does k s s' ks after c.1 d c.2),
          λ r h. (h.0, h),
        )
        | inr e ↦ (
          k,
          rest ∷ ks,
          i,
          d,
          (subst (λ r. Waits p r s' v) e w, rest_from ks, Cast-Does k s s' ks after c.1 d c.2),
          λ r h. (h.0, (l.apart_sym rest r (l.rest_apart r), h.1)),
        )
      ]
  Cast-moves (b ∷ bs) after t v s s' (j ∷ ks) move c =
      let (k, ks', i, d, c', keep) = Cast-moves bs after t v s s' ks move c.2 in
      let (apart, a) = keep j c.1 in
      (
        k,
        j ∷ ks',
        i,
        d,
        ((l.does_stands k j s s' (l.apart_sym j k apart) d c.0.0, c.0.1), a, c'),
        λ r h. let (x, y) = keep r h.1 in (x, (h.0, y)),
      )
  Cast-moves [] after t v s s' [] move c = absurd c
  Cast-moves (b ∷ bs) after t v s s' [] move c = absurd c

  module _ {E : Type 0} (Offers : S → E → Type 0) (handle : E → S → Task S B)
      (handles : (e : E) (s : S)
        → Invariant s
        → Offers s e
        → (k : Role) × Plays p (Begins k) k s (handle e s) s) where
    Step-Fine : {x y : Session S B} → Step Honest E Offers handle x y → Fine p x → Fine p y
    Step-Fine (react s ts e o {s'} {t} d) f =
        let (k, plays) = handles e s f.state_Invariant o in
        let (i, b, (j, w, same)) =
          subst (Moved p (Begins k) k s) d (Plays-drive p l (Begins k) k s (handle e s) s plays) in
        let (c, a) = Cast-Begins k s s' f.cast ts b f.plays in
        record {
          cast = f.cast ++ j ∷ [];
          state_Invariant = i;
          plays =
              Cast-concat j s' t f.cast ts
                (elim same [
                  | inl e' ↦ subst (λ r. All (λ q. Apart q r) f.cast) (sym e') a
                  | inr e' ↦
                      subst (λ r. All (λ q. Apart q r) f.cast) (sym e') (Apart-from_rest f.cast)
                ])
                w c;
        }
    Step-Fine (settled s before after t x {u} {v} {s'} a ok d) f =
        let moved : (k : Role) → Waits p k s t → Moved p (Does k) k s (s', v) = λ k w.
          subst (Moved p (Does k) k s) d (
            Plays-drive p l (Does k) k s u s
              (Promises-answer p l k t x u s a ok w.1 f.state_Invariant w.0)) in
        let (k, ks', i, _, c, _) = Cast-moves before after t v s s' f.cast moved f.plays in
        record { cast = ks'; state_Invariant = i; plays = c }

    -- Whatever the user does and in whatever order the answers come.
    pub Reach-Fine : {x y : Session S B} → Fine p x → Reach Honest E Offers handle x y → Fine p y
    Reach-Fine f here = f
    Reach-Fine f (next r st) = Step-Fine st (Reach-Fine f r)
