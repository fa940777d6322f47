-- ===== src/Console/Query/Utf8.antt =====
-- Reading back the UTF-8 bytes that `encodeURIComponent` writes.
use sysadmin_mcp_assisstant.Prelude.{
  ℕ, suc, ◌+◌, ◌-◌, ◌*◌, ◌/◌, ◌%◌, ◌<◌, ◌≤◌, true, false, ◌&&◌, List, [], ◌∷◌, ◌++◌, opt_map, leb,
  ltb, ◌≡◌, refl, ◌∙◌, ap, arith, Bool-cases, inl, inr,
}
use sysadmin_mcp_assisstant.Prelude.Text.{utf8}
use sysadmin_mcp_assisstant.Console.Query.{utf8_decode}

-- A byte that goes on with a character.
is_trailing : (b : ℕ) → b < 64 → leb 0x80 (0x80 + b) && ltb (0x80 + b) 0xC0 ≡ true
is_trailing b h = ground arith

bits : (n b : ℕ) → n + b - n ≡ b
bits n b = omega arith

last_byte :
    (acc b : ℕ) (bs : List ℕ)
    → b < 64
    → utf8_decode 1 acc ((0x80 + b) ∷ bs) ≡ opt_map (λ cs. (acc * 64 + b) ∷ cs) (utf8_decode 0 0 bs)
unfolding utf8_decode
last_byte acc b bs h = rw (utf8_decode, is_trailing b h, bits 0x80 b) refl

next_byte :
    (m acc b : ℕ) (bs : List ℕ)
    → b < 64
    → utf8_decode (suc (suc m)) acc ((0x80 + b) ∷ bs) ≡ utf8_decode (suc m) (acc * 64 + b) bs
unfolding utf8_decode
next_byte m acc b bs h = rw (utf8_decode, is_trailing b h, bits 0x80 b) refl

one_byte :
    (b : ℕ) (bs : List ℕ)
    → ltb b 0x80 ≡ true
    → utf8_decode 0 0 (b ∷ bs) ≡ opt_map (λ cs. b ∷ cs) (utf8_decode 0 0 bs)
unfolding utf8_decode
one_byte b bs h = rw (utf8_decode, h) refl

above : (n m b : ℕ) → n ≤ m → ltb (m + b) n ≡ false
above n m b h = ground arith

below : (n m b : ℕ) → m + b < n → ltb (m + b) n ≡ true
below n m b h = ground arith

lead_two : (a : ℕ) (bs : List ℕ) → a < 32 → utf8_decode 0 0 ((0xC0 + a) ∷ bs) ≡ utf8_decode 1 a bs
unfolding utf8_decode
lead_two a bs h =
    rw
      (
        utf8_decode,
        above 0x80 0xC0 a (omega arith),
        above 0xC0 0xC0 a (omega arith),
        below 0xE0 0xC0 a (omega arith),
        bits 0xC0 a,
      )
      refl

lead_three : (a : ℕ) (bs : List ℕ) → a < 16 → utf8_decode 0 0 ((0xE0 + a) ∷ bs) ≡ utf8_decode 2 a bs
unfolding utf8_decode
lead_three a bs h =
    rw
      (
        utf8_decode,
        above 0x80 0xE0 a (omega arith),
        above 0xC0 0xE0 a (omega arith),
        above 0xE0 0xE0 a (omega arith),
        below 0xF0 0xE0 a (omega arith),
        bits 0xE0 a,
      )
      refl

lead_four : (a : ℕ) (bs : List ℕ) → utf8_decode 0 0 ((0xF0 + a) ∷ bs) ≡ utf8_decode 3 a bs
unfolding utf8_decode
lead_four a bs =
    rw
      (
        utf8_decode,
        above 0x80 0xF0 a (omega arith),
        above 0xC0 0xF0 a (omega arith),
        above 0xE0 0xF0 a (omega arith),
        above 0xF0 0xF0 a (omega arith),
        bits 0xF0 a,
      )
      refl

Decodes : ℕ → List ℕ → List ℕ → Type 0
Decodes c xs bs = utf8_decode 0 0 (xs ++ bs) ≡ opt_map (λ cs. c ∷ cs) (utf8_decode 0 0 bs)

two_bytes :
    (c : ℕ) (bs : List ℕ) → c < 0x800 → Decodes c ((0xC0 + c / 64) ∷ (0x80 + c % 64) ∷ []) bs
unfolding Decodes
two_bytes c bs h =
    lead_two (c / 64) _ (omega arith)
    ∙ last_byte (c / 64) (c % 64) bs (omega arith)
    ∙ ap (λ n. opt_map (λ cs. n ∷ cs) (utf8_decode 0 0 bs)) (omega arith)

three_bytes :
    (c : ℕ) (bs : List ℕ)
    → c < 0x10000
    → Decodes c ((0xE0 + c / 4096) ∷ (0x80 + c / 64 % 64) ∷ (0x80 + c % 64) ∷ []) bs
unfolding Decodes
three_bytes c bs h =
    lead_three (c / 4096) _ (omega arith)
    ∙ next_byte 0 (c / 4096) (c / 64 % 64) _ (omega arith)
    ∙ last_byte (c / 4096 * 64 + c / 64 % 64) (c % 64) bs (omega arith)
    ∙ ap (λ n. opt_map (λ cs. n ∷ cs) (utf8_decode 0 0 bs)) (omega arith)

four_bytes :
    (c : ℕ) (bs : List ℕ)
    → Decodes c
        ((0xF0 + c / 262144) ∷ (0x80 + c / 4096 % 64) ∷ (0x80 + c / 64 % 64) ∷ (0x80 + c % 64) ∷ [])
        bs
unfolding Decodes
four_bytes c bs =
    lead_four (c / 262144) _
    ∙ next_byte 1 (c / 262144) (c / 4096 % 64) _ (omega arith)
    ∙ next_byte 0 (c / 262144 * 64 + c / 4096 % 64) (c / 64 % 64) _ (omega arith)
    ∙ last_byte ((c / 262144 * 64 + c / 4096 % 64) * 64 + c / 64 % 64) (c % 64) bs (omega arith)
    ∙ ap (λ n. opt_map (λ cs. n ∷ cs) (utf8_decode 0 0 bs)) (omega arith)

under : (c n : ℕ) → ltb c n ≡ true → c < n
under c n h = ground (arith, h)

-- A character's bytes read as that character.
pub utf8_decode-utf8 :
    (c : ℕ) (bs : List ℕ)
    → utf8_decode 0 0 (utf8 c ++ bs) ≡ opt_map (λ cs. c ∷ cs) (utf8_decode 0 0 bs)
unfolding Decodes
utf8_decode-utf8 c bs = elim (Bool-cases (ltb c 0x80)) [
  | inl a ↦ rw a (one_byte c bs a)
  | inr a ↦ elim (Bool-cases (ltb c 0x800)) [
    | inl b ↦ rw (a, b) (two_bytes c bs (under c 0x800 b))
    | inr b ↦ elim (Bool-cases (ltb c 0x10000)) [
      | inl d ↦ rw (a, b, d) (three_bytes c bs (under c 0x10000 d))
      | inr d ↦ rw (a, b, d) (four_bytes c bs)
    ]
  ]
]
