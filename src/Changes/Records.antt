-- ===== src/Changes/Records.antt =====
-- What ui/app/changes/page.tsx knows of the transactions: the lists `items` and `tokens` as finite
-- maps from a transaction's id.
use sysadmin_mcp_assisstant.Prelude.{
  ℕ, String, true, false, ◌&&◌, ◌||◌, not, List, [], ◌∷◌, Option, some, none, or_else, find, filter,
  leb, ltb, eqb, if◌then◌else◌, ◌==◌, ◌≡◌, refl, sym, eq_iff, Bool-cases, inl, inr,
}
use mathlib.Core.Path.{subst}
use sysadmin_mcp_assisstant.Prelude.Text.{is_blank}
use sysadmin_mcp_assisstant.Task.{Json, start, expect, pure, ◌>>=◌}
use sysadmin_mcp_assisstant.Task.Pool.{replies, run}
use sysadmin_mcp_assisstant.Task.Answered.{Answered-run}
use sysadmin_mcp_assisstant.Http.{Body}
use sysadmin_mcp_assisstant.Http.Replied.{Answered-api_fetch}
use sysadmin_mcp_assisstant.Changes.{
  Change, Changes, Data, change, State, token_of, remember, replace, call,
}

-- The transactions and the tokens, by id.
abbrev pub known : Changes → String → Option Change
known p id = find (λ (x : Change). x.id == id) p.items

abbrev pub token : Changes → String → String
token p id = token_of id p.tokens

-- A map with a new value at `id`.
abbrev pub put : {A : Type 0} → String → A → (String → A) → String → A
put id a m x = if id == x then a else m x

other_id : (a b c : String) → a == b ≡ true → b == c ≡ false → a == c ≡ false
other_id a b c e n = subst (λ x. x == c ≡ false) (sym ((eq_iff a b).0 e)) n

find-others :
    (id x : String) (xs : List Change)
    → id == x ≡ false
    → find (λ (c : Change). c.id == x) (filter (λ c. not (c.id == id)) xs)
      ≡ find (λ (c : Change). c.id == x) xs
find-others id x [] n = refl
find-others id x (c ∷ cs) n = elim (Bool-cases (c.id == id)) [
  | inl e ↦ rw (e, other_id c.id id x e n) (find-others id x cs n)
  | inr e ↦ rw (e, find-others id x cs n) refl
]

find-replace :
    (c : Change) (xs : List Change) (x : String)
    → find (λ (k : Change). k.id == x) (replace c xs)
      ≡ put c.id (some c) (λ y. find (λ (k : Change). k.id == y) xs) x
find-replace c xs x = elim (Bool-cases (c.id == x)) [
  | inl e ↦ rw e refl
  | inr e ↦ rw (e, find-others c.id x xs e) refl
]

-- The token that comes with a transaction, where one does.
abbrev pub issued : Change → String
issued c = or_else c.approval_token ""

pub token_of-remember :
    (id : String) (o : Option String) (ts : List (String × String)) (x : String)
    → token_of x (remember id o ts)
      ≡ (if not (is_blank (or_else o "")) && id == x then or_else o "" else token_of x ts)
token_of-remember id none ts x = refl
token_of-remember id (some String.[]) ts x = refl
token_of-remember id (some (String.◌∷◌ k t)) ts x = refl

-- The transactions and tokens that the page knows after a request, with nothing in between and an
-- answer that has a transaction and another status than 401 and 403: where the answer is `ok`, the
-- map from ids to transactions has the new one at its id, and the map from ids to tokens has the new
-- token there, if one came with it; every other entry, and after any other answer every entry, is as
-- before. At the end the page is not busy.
pub call_refines :
    (path : String) (body : Option Json) (st : ℕ) (c : Change) (d : Body Data) (s : State)
    (x : String)
    → eqb st 401 || eqb st 403 ≡ false
    → d.value ≡ change c
    → let okay = leb 200 st && ltb st 300 in
      let p' = (run (start (do k ← call path body; pure tt)) (replies st d) s).page in
      (known p' x ≡ (if okay then put c.id (some c) (known s.page) x else known s.page x))
      × (token p' x
          ≡ (if okay && not (is_blank (issued c)) && c.id == x then issued c else token s.page x))
      × (p'.busy ≡ false)
unfolding call expect
call_refines path body st c d s x other is_change =
    let okay = leb 200 st && ltb st 300 in
    Answered-run
      (λ s'.
        (known s'.page x ≡ (if okay then put c.id (some c) (known s.page) x else known s.page x))
        × (token s'.page x
            ≡ (if okay && not (is_blank (issued c)) && c.id == x then issued c else token s.page x))
        × (s'.page.busy ≡ false))
      (replies st d) (start (do k ← call path body; pure tt)) s
      (Answered-api_fetch _ st d other _ _ _ _ _ _ (
        λ fine.
            rw (is_change, fine)
              (
                find-replace c s.page.items x,
                token_of-remember c.id c.approval_token s.page.tokens x,
                refl,
              ),
        λ bad. rw bad (refl, refl, refl),
      ))
