-- ===== src/Prelude/Split.antt =====
-- Splitting a text that comes in pieces.
use Prim.Native.Char.{Char, code}
use Prim.Native.String
use Prim.Native.String.{String}
use Prim.Native.String.append
use mathlib.Core.Path.{◌≡◌, refl, sym, ap, subst}
use mathlib.Core.Bool.{true, false}
use mathlib.Core.Logic.{inl, inr}
use Prim.Native.Nat.{ℕ}
use mathlib.Core.List.{List, [], ◌∷◌, ◌++◌}
use sysadmin_mcp_assisstant.Prelude.Tests.{eqb, if◌then◌else◌, Bool-cases, or_else}
use sysadmin_mcp_assisstant.Prelude.Lists.{init, last}
use sysadmin_mcp_assisstant.Prelude.Text.{split, push_head}

-- A split has a piece.
pub split-cons : (sep : ℕ) (s : String) → (p : String) × (ps : List String) × (split sep s ≡ p ∷ ps)
unfolding split
split-cons sep String.[] = ("", [], refl)
split-cons sep (String.◌∷◌ c s) = elim (Bool-cases (eqb (code c) sep)) [
  | inl e ↦ ("", split sep s, rw e)
  | inr e ↦ let (p, ps, h) = split-cons sep s in (String.◌∷◌ c p, ps, rw (e, h))
]

abbrev pub rest_of : List String → String
rest_of l = or_else (last l) ""

-- The pieces of `s ++ b`, from those of `s`, where `s` has the pieces `l`.
Resumes : ℕ → List String → String → String → Type 0
Resumes sep l t b = split sep t ≡ init l ++ split sep (String.◌++◌ (rest_of l) b)

nothing_read : (sep : ℕ) (b : String) → Resumes sep ("" ∷ []) (String.◌++◌ "" b) b
unfolding Resumes
nothing_read sep b = refl

-- One more character in front of the first piece.
Resumes-push :
    (sep : ℕ) (c : Char) (p : String) (ps : List String) (t b : String)
    → eqb (code c) sep ≡ false
    → Resumes sep (p ∷ ps) t b
    → Resumes sep (push_head c (p ∷ ps)) (String.◌∷◌ c t) b
unfolding Resumes split
Resumes-push sep c p [] t b e h = rw (append.cons c p b) (rw e (ap (push_head c) h))
Resumes-push sep c p (q ∷ qs) t b e h = rw (e, h)

Resumes-break :
    (sep : ℕ) (c : Char) (p : String) (ps : List String) (t b : String)
    → eqb (code c) sep ≡ true
    → Resumes sep (p ∷ ps) t b
    → Resumes sep ("" ∷ p ∷ ps) (String.◌∷◌ c t) b
unfolding Resumes split
Resumes-break sep c p ps t b e h = rw (e, h)

Resumes-cons :
    (sep : ℕ) (c : Char) (l : List String) (p : String) (ps : List String) (t b : String)
    → l ≡ p ∷ ps
    → Resumes sep l t b
    → Resumes sep (if eqb (code c) sep then "" ∷ l else push_head c l) (String.◌∷◌ c t) b
Resumes-cons sep c l p ps t b q h = elim (Bool-cases (eqb (code c) sep)) [
  | inl e ↦
      subst (λ v. Resumes sep (if v then "" ∷ l else push_head c l) (String.◌∷◌ c t) b) (sym e)
        (rw q (Resumes-break sep c p ps t b e (rw (← q) h)))
  | inr e ↦
      subst (λ v. Resumes sep (if v then "" ∷ l else push_head c l) (String.◌∷◌ c t) b) (sym e)
        (rw q (Resumes-push sep c p ps t b e (rw (← q) h)))
]

split-Resumes : (sep : ℕ) (s b : String) → Resumes sep (split sep s) (String.◌++◌ s b) b
unfolding split
split-Resumes sep String.[] b = nothing_read sep b
split-Resumes sep (String.◌∷◌ c s) b =
    let (p, ps, h) = split-cons sep s in
    rw (append.cons c s b)
      (Resumes-cons sep c (split sep s) p ps (String.◌++◌ s b) b h (split-Resumes sep s b))

-- The complete pieces of `s` come first; the last one goes on with `b`.
pub split-append :
    (sep : ℕ) (s b : String)
    → split sep (String.◌++◌ s b)
      ≡ init (split sep s) ++ split sep (String.◌++◌ (rest_of (split sep s)) b)
unfolding Resumes
split-append sep s b = split-Resumes sep s b
