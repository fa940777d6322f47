-- ===== src/Console/Query.antt =====
-- `new URLSearchParams(location.search).get(name)`, as ui/app/page.tsx reads its query, on the code
-- points of the address. A value that is not UTF-8, which a browser reads with replacement characters,
-- has no value here.
pub mod Utf8
pub mod Escapes
pub mod Addresses
use Prim.Native.Char.{code}
use Prim.Native.String.{String}
use sysadmin_mcp_assisstant.Prelude.{
  ℕ, zero, suc, ◌+◌, ◌-◌, ◌*◌, Bool, true, false, ◌&&◌, ◌||◌, List, [], ◌∷◌, map, Option, none,
  some, opt_map, leb, ltb, eqb, if◌then◌else◌, ◌≡◌, refl,
}
use sysadmin_mcp_assisstant.Prelude.Text

abbrev pub codes : String → List ℕ
codes String.[] = []
codes (String.◌∷◌ c s) = code c ∷ codes s

-- What comes before the first `sep`, and what comes after it.
unfoldable pub cut : ℕ → List ℕ → List ℕ × List ℕ
cut sep [] = ([], [])
cut sep (c ∷ cs) = let (a, b) = cut sep cs in if eqb c sep then ([], cs) else (c ∷ a, b)

-- The pieces between separators.
abbrev pub onto : ℕ → List (List ℕ) → List (List ℕ)
onto c [] = (c ∷ []) ∷ []
onto c (p ∷ ps) = (c ∷ p) ∷ ps

unfoldable pub pieces : ℕ → List ℕ → List (List ℕ)
pieces sep [] = [] ∷ []
pieces sep (c ∷ cs) = let rest = pieces sep cs in if eqb c sep then [] ∷ rest else onto c rest

unfoldable pub is_hex : ℕ → Bool
is_hex c = (leb b'0' c && leb c b'9') || (leb b'A' c && leb c b'F') || (leb b'a' c && leb c b'f')

unfoldable pub hex_value : ℕ → ℕ
hex_value c = if leb c b'9' then c - b'0' else if leb c b'F' then c - 55 else c - 87

-- Percent-decoding: nothing was seen of an escape, its `%`, or its `%` and a digit.
pub data Seen : Type 0 where
  plain escape : Seen
  digit : ℕ → Seen

unfoldable pub percent_decode : Seen → List ℕ → List ℕ
percent_decode plain [] = []
percent_decode escape [] = b'%' ∷ []
percent_decode (digit a) [] = b'%' ∷ a ∷ []
percent_decode plain (c ∷ cs) = elim (eqb c b'%') [
  | true ↦ percent_decode escape cs
  | false ↦ c ∷ percent_decode plain cs
]
percent_decode escape (c ∷ cs) = elim (is_hex c) [
  | true ↦ percent_decode (digit c) cs
  | false ↦
      b'%'
      ∷ elim (eqb c b'%') [ true ↦ percent_decode escape cs | false ↦ c ∷ percent_decode plain cs ]
]
percent_decode (digit a) (c ∷ cs) = elim (is_hex c) [
  | true ↦ (hex_value a * 16 + hex_value c) ∷ percent_decode plain cs
  | false ↦
      b'%'
      ∷ a
      ∷ elim (eqb c b'%') [ true ↦ percent_decode escape cs | false ↦ c ∷ percent_decode plain cs ]
]

-- UTF-8: how many bytes of a character are still to come, and its bits so far.
unfoldable pub utf8_decode : ℕ → ℕ → List ℕ → Option (List ℕ)
utf8_decode zero acc [] = some []
utf8_decode (suc n) acc [] = none
utf8_decode zero acc (b ∷ bs) = elim (ltb b 0x80) [
  | true ↦ opt_map (λ cs. b ∷ cs) (utf8_decode 0 0 bs)
  | false ↦ elim (ltb b 0xC0) [
    | true ↦ none
    | false ↦ elim (ltb b 0xE0) [
      | true ↦ utf8_decode 1 (b - 0xC0) bs
      | false ↦ elim (ltb b 0xF0) [
        | true ↦ utf8_decode 2 (b - 0xE0) bs
        | false ↦ utf8_decode 3 (b - 0xF0) bs
      ]
    ]
  ]
]
utf8_decode (suc n) acc (b ∷ bs) = elim (leb 0x80 b && ltb b 0xC0) [
  | false ↦ none
  | true ↦ elim n [
    | zero ↦ opt_map (λ cs. (acc * 64 + (b - 0x80)) ∷ cs) (utf8_decode 0 0 bs)
    | suc m ↦ utf8_decode (suc m) (acc * 64 + (b - 0x80)) bs
  ]
]

-- In a query `+` is a space.
abbrev pub unplus : ℕ → ℕ
unplus c = if eqb c b'+' then b' ' else c

abbrev pub value_of : List ℕ → Option (List ℕ)
value_of cs = utf8_decode 0 0 (percent_decode plain (map unplus cs))

abbrev pub same : List ℕ → List ℕ → Bool
same [] [] = true
same (x ∷ xs) (y ∷ ys) = eqb x y && same xs ys
same xs ys = false

abbrev pub is_named : List ℕ → Option (List ℕ) → Bool
is_named name none = false
is_named name (some cs) = same name cs

unfoldable pub get_first : List ℕ → List (List ℕ) → Option (List ℕ)
get_first name [] = none
get_first name (p ∷ ps) =
    let rest = get_first name ps in
    let (key, value) = cut b'=' p in if is_named name (value_of key) then value_of value else rest

-- The parameter `name` of the address.
unfoldable pub query_value : String → String → Option (List ℕ)
query_value name address = get_first (codes name) (pieces b'&' (cut b'?' (codes address)).1)

reads : query_value "chat" "/?host=a%20b&chat=%CE%BB+1" ≡ some (codes "λ 1")
unfolding query_value get_first cut pieces percent_decode utf8_decode is_hex hex_value
reads = refl
