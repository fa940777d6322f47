-- ===== src/Console/Query/Escapes.antt =====
-- Reading back what `encodeURIComponent` writes.
use Prim.Native.Nat.{Ordering, compare}
use Prim.Native.Char.{Char, char, code, IsLt}
use Prim.Native.String
use Prim.Native.String.{String}
use Prim.Native.String.append
use sysadmin_mcp_assisstant.Prelude.{
  ℕ, zero, suc, ◌+◌, ◌*◌, ◌/◌, ◌%◌, ◌<◌, Bool, true, ◌&&◌, List, [], ◌∷◌, ◌++◌, map, ltb, eqb, All,
  ◌≡◌, ◌⊎◌, inl, inr, refl, ◌∙◌, ap, arith, Bool-cases,
}
use sysadmin_mcp_assisstant.Prelude.Text.{hex_pair, utf8, percent}
use sysadmin_mcp_assisstant.Console.Query.{codes, is_hex, hex_value, plain, percent_decode, unplus}

Both : Ordering → Ordering → Type 0
Both Ordering.lt o = IsLt o
Both Ordering.eq o = ⊥
Both Ordering.gt o = ⊥

Scalar : Ordering → Ordering → Ordering → Type 0
Scalar Ordering.lt b c = Unit
Scalar Ordering.eq b c = Both b c
Scalar Ordering.gt b c = Both b c

Scalar-lt : (a b c : Ordering) → Scalar a b c → (a ≡ Ordering.lt) ⊎ (c ≡ Ordering.lt)
unfolding Scalar Both
Scalar-lt Ordering.lt b c h = inl refl
Scalar-lt Ordering.eq Ordering.lt Ordering.lt h = inr refl
Scalar-lt Ordering.gt Ordering.lt Ordering.lt h = inr refl
Scalar-lt Ordering.eq Ordering.lt Ordering.eq h = absurd h
Scalar-lt Ordering.eq Ordering.lt Ordering.gt h = absurd h
Scalar-lt Ordering.gt Ordering.lt Ordering.eq h = absurd h
Scalar-lt Ordering.gt Ordering.lt Ordering.gt h = absurd h
Scalar-lt Ordering.eq Ordering.eq c h = absurd h
Scalar-lt Ordering.eq Ordering.gt c h = absurd h
Scalar-lt Ordering.gt Ordering.eq c h = absurd h
Scalar-lt Ordering.gt Ordering.gt c h = absurd h

-- A character is a code point of Unicode.
pub code_bound : (c : Char) → code c < 0x110000
unfolding Scalar Both
code_bound (char n p) = elim (Scalar-lt (compare n 55296) (compare 57343 n) (compare n 1114112) p) [
  | inl e ↦ ground (arith, e)
  | inr e ↦ ground (arith, e)
]

abbrev pub Byte : ℕ → Type 0
Byte b = b < 256

pub utf8-Byte : (c : ℕ) → c < 0x110000 → All Byte (utf8 c)
utf8-Byte c h = elim (Bool-cases (ltb c 0x80)) [
  | inl a ↦ rw a (ground (arith, a), tt)
  | inr a ↦ elim (Bool-cases (ltb c 0x800)) [
    | inl b ↦ rw (a, b) (ground (arith, b), (omega arith, tt))
    | inr b ↦ elim (Bool-cases (ltb c 0x10000)) [
      | inl d ↦ rw (a, b, d) (ground (arith, d), (omega arith, (omega arith, tt)))
      | inr d ↦ rw (a, b, d) (omega (arith, h), (omega arith, (omega arith, (omega arith, tt))))
    ]
  ]
]

abbrev pub hex_code : ℕ → ℕ
hex_code d = code (String.char_at "0123456789ABCDEF" d)

-- A test that holds of all numbers below `n`.
every : (ℕ → Bool) → ℕ → Bool
every f zero = true
every f (suc n) = f n && every f n

left_true : (a b : Bool) → a && b ≡ true → a ≡ true
left_true a b h = ground (arith, h)

right_true : (a b : Bool) → a && b ≡ true → b ≡ true
right_true a b h = ground (arith, h)

same_number : (m n : ℕ) → eqb m n ≡ true → m ≡ n
same_number m n h = ground (arith, h)

every-below : (f : ℕ → Bool) (n d : ℕ) → every f n ≡ true → d < n → f d ≡ true
unfolding every
every-below f zero d h lt = absurd (omega (arith, lt))
every-below f (suc n) d h lt = elim (Bool-cases (eqb d n)) [
  | inl e ↦ ap f (same_number d n e) ∙ left_true (f n) _ h
  | inr e ↦ every-below f n d (right_true (f n) _ h) (ground (arith, e, lt))
]

abbrev is_digit_of : ℕ → Bool
is_digit_of d = is_hex (hex_code d) && eqb (hex_value (hex_code d)) d

pub hex_digit : (d : ℕ) → d < 16 → (is_hex (hex_code d) ≡ true) × (hex_value (hex_code d) ≡ d)
unfolding every is_hex hex_value
hex_digit d h =
    let e = every-below is_digit_of 16 d refl h in
    (left_true _ _ e, same_number _ _ (right_true (is_hex (hex_code d)) _ e))

pub codes-append : (s t : String) → codes (String.◌++◌ s t) ≡ codes s ++ codes t
codes-append String.[] t = ap codes (append.nil t)
codes-append (String.◌∷◌ c s) t =
    ap codes (append.cons c s t) ∙ ap (λ cs. code c ∷ cs) (codes-append s t)

unplus-hex : (c : ℕ) → is_hex c ≡ true → unplus c ≡ c
unfolding is_hex
unplus-hex c h = ground (arith, h)

-- An escape reads as its byte.
escaped :
    (a b : ℕ) (cs : List ℕ)
    → is_hex a ≡ true
    → is_hex b ≡ true
    → percent_decode plain (b'%' ∷ unplus a ∷ unplus b ∷ cs)
      ≡ (hex_value a * 16 + hex_value b) ∷ percent_decode plain cs
unfolding percent_decode
escaped a b cs ha hb =
    ap (λ x. percent_decode plain (b'%' ∷ x ∷ unplus b ∷ cs)) (unplus-hex a ha)
    ∙ ap (λ x. percent_decode plain (b'%' ∷ a ∷ x ∷ cs)) (unplus-hex b hb)
    ∙ rw (percent_decode, ha, hb) refl

pub codes-hex_pair :
    (b : ℕ) (t : String)
    → codes (String.◌++◌ (hex_pair "0123456789ABCDEF" b) t)
      ≡ hex_code (b / 16) ∷ hex_code (b % 16) ∷ codes t
unfolding hex_pair
codes-hex_pair b t = codes-append (hex_pair "0123456789ABCDEF" b) t

pub percent_bytes :
    (bs rest : List ℕ)
    → All Byte bs
    → percent_decode plain (map unplus (codes (percent bs) ++ rest))
      ≡ bs ++ percent_decode plain (map unplus rest)
unfolding percent
percent_bytes [] rest h = refl
percent_bytes (b ∷ bs) rest h =
    let (ha, va) = hex_digit (b / 16) (omega (arith, h.0)) in
    let (hb, vb) = hex_digit (b % 16) (omega arith) in
    rw (codes-hex_pair b (percent bs)) (
      escaped (hex_code (b / 16)) (hex_code (b % 16)) (map unplus (codes (percent bs) ++ rest)) ha
        hb
      ∙ ap (λ x. x ∷ percent_decode plain (map unplus (codes (percent bs) ++ rest)))
          (omega (arith, va, vb))
      ∙ ap (λ l. b ∷ l) (percent_bytes bs rest h.1))
