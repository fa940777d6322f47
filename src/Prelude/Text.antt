-- ===== src/Prelude/Text.antt =====
-- The string methods that the source calls.
use Prim.Native.Nat.{ℕ, zero, suc, ◌+◌, ◌-◌, ◌/◌, ◌%◌}
use Prim.Native.Char.{Char, code}
use Prim.Native.String
use Prim.Native.String.{String}
use mathlib.Core.Path.{◌≡◌, refl}
use mathlib.Core.Bool.{Bool, true, false, ◌&&◌, ◌||◌}
use mathlib.Core.List.{List, [], ◌∷◌}
use text.Mathlib.Text.{◌==◌, starts_with}
use sysadmin_mcp_assisstant.Prelude.Tests.{eqb, leb, ltb, if◌then◌else◌}
use sysadmin_mcp_assisstant.Prelude.Lists.{any}

-- `!s`
abbrev pub is_blank : String → Bool
is_blank String.[] = true
is_blank (String.◌∷◌ c s) = false

-- Template literals, and `xs.join(sep)`.
unfoldable pub concat : List String → String
concat [] = ""
concat (s ∷ ss) = String.◌++◌ s (concat ss)

unfoldable pub join : String → List String → String
join sep [] = ""
join sep (s ∷ []) = s
join sep (s ∷ t ∷ ss) = String.◌++◌ s (String.◌++◌ sep (join sep (t ∷ ss)))

-- The white space and line terminators that `trim` removes.
unfoldable pub is_space : Char → Bool
is_space c =
    (leb 9 (code c) && leb (code c) 13)
    || eqb (code c) 32
    || eqb (code c) 0xA0
    || eqb (code c) 0x1680
    || (leb 0x2000 (code c) && leb (code c) 0x200A)
    || eqb (code c) 0x2028
    || eqb (code c) 0x2029
    || eqb (code c) 0x202F
    || eqb (code c) 0x205F
    || eqb (code c) 0x3000
    || eqb (code c) 0xFEFF

unfoldable pub trim_start : String → String
unfolding is_space
trim_start String.[] = ""
trim_start (String.◌∷◌ c s) = let rest = trim_start s in if is_space c then rest else String.◌∷◌ c s

-- White space at the end is dropped where nothing but white space follows.
unfoldable pub trim_end : String → String
unfolding is_space
trim_end String.[] = ""
trim_end (String.◌∷◌ c s) =
    let rest = trim_end s in if is_blank rest && is_space c then "" else String.◌∷◌ c rest

unfoldable pub trim : String → String
unfolding trim_start trim_end
trim s = trim_end (trim_start s)

-- `s.split(sep)` at one character, with the piece being read in front.
abbrev pub push_head : Char → List String → List String
push_head c [] = String.◌∷◌ c "" ∷ []
push_head c (p ∷ ps) = String.◌∷◌ c p ∷ ps

unfoldable pub split : ℕ → String → List String
split sep String.[] = "" ∷ []
split sep (String.◌∷◌ c s) =
    let rest = split sep s in if eqb (code c) sep then "" ∷ rest else push_head c rest

-- `s.slice(0, n)`
unfoldable pub slice : ℕ → String → String
slice zero s = ""
slice (suc n) String.[] = ""
slice (suc n) (String.◌∷◌ c s) = String.◌∷◌ c (slice n s)

-- `s.replace(old, new)`, which replaces the first, and `s.replaceAll(old, new)`, at one character.
unfoldable pub replace_first : ℕ → Char → String → String
replace_first old new String.[] = ""
replace_first old new (String.◌∷◌ c s) =
    let rest = replace_first old new s in
    if eqb (code c) old then String.◌∷◌ new s else String.◌∷◌ c rest

unfoldable pub replace_all : ℕ → Char → String → String
replace_all old new String.[] = ""
replace_all old new (String.◌∷◌ c s) =
    String.◌∷◌ (if eqb (code c) old then new else c) (replace_all old new s)

-- `xs.includes(s)`
abbrev pub includes : List String → String → Bool
includes xs s = any (λ x. x == s) xs

-- `p ? a : b` on the truth of a text: `a || b`.
abbrev pub or_text : String → String → String
or_text a b = if is_blank a then b else a

-- Decimal digits of a number, as `String(n)` prints them; the fuel is one more than the number.
abbrev digit : ℕ → Char
digit n = String.char_at "0123456789" n

decimal_onto : ℕ → ℕ → String → String
decimal_onto zero n acc = acc
decimal_onto (suc f) n acc =
    let rest = decimal_onto f (n / 10) (String.◌∷◌ (digit (n % 10)) acc) in
    if ltb n 10 then String.◌∷◌ (digit n) acc else rest

unfoldable pub decimal : ℕ → String
unfolding decimal_onto
decimal n = decimal_onto (suc n) n ""

trims : trim "  a b \n" ≡ "a b"
unfolding trim
trims = refl

splits : split 10 "a\nb\n" ≡ "a" ∷ "b" ∷ "" ∷ []
unfolding split
splits = refl

prints : decimal 8765 ≡ "8765"
unfolding decimal
prints = refl

-- `s.slice(from, to)`
unfoldable pub drop_text : ℕ → String → String
drop_text zero s = s
drop_text (suc n) String.[] = ""
drop_text (suc n) (String.◌∷◌ c s) = drop_text n s

unfoldable pub slice_between : ℕ → ℕ → String → String
unfolding drop_text slice
slice_between from to s = slice (to - from) (drop_text from s)

-- `n.toString(16).padStart(2, '0')` for a byte, over the digits given.
unfoldable pub hex_pair : String → ℕ → String
hex_pair digits n =
    String.◌∷◌ (String.char_at digits (n / 16)) (String.◌∷◌ (String.char_at digits (n % 16)) "")

-- `encodeURIComponent`: the UTF-8 bytes of every character but the unreserved ones.
abbrev pub utf8 : ℕ → List ℕ
utf8 c =
    if ltb c 0x80
    then c ∷ []
    else if ltb c 0x800
    then (0xC0 + c / 64) ∷ (0x80 + c % 64) ∷ []
    else if ltb c 0x10000
    then (0xE0 + c / 4096) ∷ (0x80 + c / 64 % 64) ∷ (0x80 + c % 64) ∷ []
    else (0xF0 + c / 262144) ∷ (0x80 + c / 4096 % 64) ∷ (0x80 + c / 64 % 64) ∷ (0x80 + c % 64) ∷ []

unfoldable pub unreserved : ℕ → Bool
unreserved c =
    (leb b'A' c && leb c b'Z')
    || (leb b'a' c && leb c b'z')
    || (leb b'0' c && leb c b'9')
    || eqb c b'-'
    || eqb c b'_'
    || eqb c b'.'
    || eqb c b'!'
    || eqb c b'~'
    || eqb c b'*'
    || eqb c 39
    || eqb c b'('
    || eqb c b')'

unfoldable pub percent : List ℕ → String
percent [] = ""
percent (b ∷ bs) = String.◌∷◌ "%" (String.◌++◌ (hex_pair "0123456789ABCDEF" b) (percent bs))

unfoldable pub encode_uri_component : String → String
unfolding percent hex_pair unreserved
encode_uri_component String.[] = ""
encode_uri_component (String.◌∷◌ c s) =
    let rest = encode_uri_component s in
    if unreserved (code c) then String.◌∷◌ c rest else String.◌++◌ (percent (utf8 (code c))) rest

encodes : encode_uri_component "a b/λ" ≡ "a%20b%2F%CE%BB"
unfolding encode_uri_component
encodes = refl

-- `s.includes(t)`
unfoldable pub contains : String → String → Bool
contains String.[] t = starts_with "" t
contains (String.◌∷◌ c s) t = starts_with (String.◌∷◌ c s) t || contains s t

-- `s.endsWith(t)`
unfoldable pub ends_with : String → String → Bool
ends_with String.[] t = is_blank t
ends_with (String.◌∷◌ c s) t = (String.◌∷◌ c s) == t || ends_with s t

finds : (contains "deployments" "men" ≡ true) × (contains "deployments" "net" ≡ false)
unfolding contains
finds = (refl, refl)

ends : (ends_with "restart_service" "_service" ≡ true) × (ends_with "run_backup" "_service" ≡ false)
unfolding ends_with
ends = (refl, refl)
