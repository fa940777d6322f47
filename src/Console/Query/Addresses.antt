-- ===== src/Console/Query/Addresses.antt =====
-- Texts that `encodeURIComponent` writes into an address, read back by `URLSearchParams`.
use Prim.Native.Char.{code}
use Prim.Native.String.{String}
use mathlib.Core.List.{append-nil}
use mathlib.Core.Path.{subst}
use sysadmin_mcp_assisstant.Prelude.{
  ℕ, ◌/◌, ◌%◌, true, false, List, [], ◌∷◌, ◌++◌, map, some, opt_map, ltb, eqb, All, All-append, ◌≡◌,
  inl, inr, refl, sym, ◌∙◌, ap, arith, Bool-cases,
}
use sysadmin_mcp_assisstant.Prelude.Text.{concat, utf8, unreserved, percent, encode_uri_component}
use sysadmin_mcp_assisstant.Console.Query.{
  codes, cut, pieces, is_hex, plain, percent_decode, utf8_decode, unplus, value_of, get_first,
  query_value,
}
use sysadmin_mcp_assisstant.Console.Query.Utf8.{utf8_decode-utf8}
use sysadmin_mcp_assisstant.Console.Query.Escapes.{
  Byte, percent_bytes, utf8-Byte, code_bound, codes-append, hex_digit, codes-hex_pair,
}

-- The UTF-8 bytes of a text.
bytes : String → List ℕ
bytes String.[] = []
bytes (String.◌∷◌ c s) = utf8 (code c) ++ bytes s

utf8_decode-bytes : (s : String) → utf8_decode 0 0 (bytes s) ≡ some (codes s)
unfolding bytes utf8_decode
utf8_decode-bytes String.[] = refl
utf8_decode-bytes (String.◌∷◌ c s) =
    utf8_decode-utf8 (code c) (bytes s) ∙ ap (opt_map (λ cs. code c ∷ cs)) (utf8_decode-bytes s)

-- A character that is written as it is is an ASCII character, and neither `+` nor `%`.
unreserved-plain :
    (c : ℕ) → unreserved c ≡ true → (unplus c ≡ c) × (eqb c b'%' ≡ false) × (ltb c 0x80 ≡ true)
unfolding unreserved
unreserved-plain c h = (ground (arith, h), ground (arith, h), ground (arith, h))

percent_decode-kept :
    (c : ℕ) (cs : List ℕ)
    → unreserved c ≡ true
    → percent_decode plain (unplus c ∷ cs) ≡ utf8 c ++ percent_decode plain cs
unfolding percent_decode
percent_decode-kept c cs h =
    let (p, q, r) = unreserved-plain c h in
    ap (λ x. percent_decode plain (x ∷ cs)) p ∙ rw (percent_decode, q, r) refl

percent_decode-encode :
    (s : String) → percent_decode plain (map unplus (codes (encode_uri_component s))) ≡ bytes s
unfolding bytes encode_uri_component percent_decode
percent_decode-encode String.[] = refl
percent_decode-encode (String.◌∷◌ c s) = elim (Bool-cases (unreserved (code c))) [
  | inl e ↦ rw e (
      percent_decode-kept (code c) (map unplus (codes (encode_uri_component s))) e
      ∙ ap (λ l. utf8 (code c) ++ l) (percent_decode-encode s))
  | inr e ↦ rw e (
      ap (λ l. percent_decode plain (map unplus l))
        (codes-append (percent (utf8 (code c))) (encode_uri_component s))
      ∙ percent_bytes (utf8 (code c)) (codes (encode_uri_component s))
          (utf8-Byte (code c) (code_bound c))
      ∙ ap (λ l. utf8 (code c) ++ l) (percent_decode-encode s))
]

pub value_of-encode : (s : String) → value_of (codes (encode_uri_component s)) ≡ some (codes s)
value_of-encode s = ap (utf8_decode 0 0) (percent_decode-encode s) ∙ utf8_decode-bytes s

-- No separator of parameters.
abbrev Inside : ℕ → Type 0
Inside c = eqb c b'&' ≡ false

hex-Inside : (c : ℕ) → is_hex c ≡ true → Inside c
unfolding is_hex
hex-Inside c h = ground (arith, h)

unreserved-Inside : (c : ℕ) → unreserved c ≡ true → Inside c
unfolding unreserved
unreserved-Inside c h = ground (arith, h)

percent-Inside : (bs : List ℕ) → All Byte bs → All Inside (codes (percent bs))
unfolding percent
percent-Inside [] h = tt
percent-Inside (b ∷ bs) h = (
  refl,
  subst (All Inside) (sym (codes-hex_pair b (percent bs))) (
    hex-Inside _ (hex_digit (b / 16) (omega (arith, h.0))).0,
    (hex-Inside _ (hex_digit (b % 16) (omega arith)).0, percent-Inside bs h.1),
  ),
)

encode-Inside : (s : String) → All Inside (codes (encode_uri_component s))
unfolding encode_uri_component
encode-Inside String.[] = tt
encode-Inside (String.◌∷◌ c s) = elim (Bool-cases (unreserved (code c))) [
  | inl e ↦ rw e (unreserved-Inside (code c) e, encode-Inside s)
  | inr e ↦ rw e (
      subst (All Inside) (sym (codes-append (percent (utf8 (code c))) (encode_uri_component s))) (
        All-append Inside _ _ (percent-Inside (utf8 (code c)) (utf8-Byte (code c) (code_bound c)))
          (encode-Inside s)))
]

pieces-last : (xs : List ℕ) → All Inside xs → pieces b'&' xs ≡ xs ∷ []
unfolding pieces
pieces-last [] h = refl
pieces-last (x ∷ xs) h = rw (h.0, pieces-last xs h.1) refl

pieces-next : (xs ys : List ℕ) → All Inside xs → pieces b'&' (xs ++ b'&' ∷ ys) ≡ xs ∷ pieces b'&' ys
unfolding pieces
pieces-next [] ys h = refl
pieces-next (x ∷ xs) ys h = rw (h.0, pieces-next xs ys h.1) refl

-- An address with two parameters, as code points.
address_codes :
    (h s : String)
    → codes (concat ("/?host=" ∷ encode_uri_component h ∷ "&chat=" ∷ encode_uri_component s ∷ []))
      ≡ codes "/?host="
        ++ (codes (encode_uri_component h) ++ (codes "&chat=" ++ codes (encode_uri_component s)))
unfolding concat
address_codes h s =
    codes-append "/?host=" _
    ∙ ap (λ l. codes "/?host=" ++ l)
        (codes-append (encode_uri_component h) _
          ∙ ap (λ l. codes (encode_uri_component h) ++ l)
              (codes-append "&chat=" _
                ∙ ap (λ l. codes "&chat=" ++ l)
                    (codes-append (encode_uri_component s) "" ∙ append-nil _)))

pieces-parameters :
    (h s : String)
    → pieces b'&' (
        codes "host="
        ++ (codes (encode_uri_component h) ++ (codes "&chat=" ++ codes (encode_uri_component s))))
      ≡ (codes "host=" ++ codes (encode_uri_component h))
        ∷ (codes "chat=" ++ codes (encode_uri_component s))
        ∷ []
unfolding pieces
pieces-parameters h s =
    rw
      (
        pieces-next (codes (encode_uri_component h))
            (codes "chat=" ++ codes (encode_uri_component s)) (encode-Inside h),
        pieces-last (codes (encode_uri_component s)) (encode-Inside s),
      )
      refl

-- The two parameters of an address are the texts that were written into it, whatever they contain.
pub query_value-encode :
    (h s : String)
    → let address =
        concat ("/?host=" ∷ encode_uri_component h ∷ "&chat=" ∷ encode_uri_component s ∷ []) in
      (query_value "host" address ≡ some (codes h)) × (query_value "chat" address ≡ some (codes s))
unfolding query_value get_first cut percent_decode utf8_decode
query_value-encode h s =
    let read : (name : String)
        → query_value name
            (concat ("/?host=" ∷ encode_uri_component h ∷ "&chat=" ∷ encode_uri_component s ∷ []))
          ≡ get_first (codes name) (
              (codes "host=" ++ codes (encode_uri_component h))
              ∷ (codes "chat=" ++ codes (encode_uri_component s))
              ∷ []) =
      λ name.
        ap (λ l. get_first (codes name) (pieces b'&' (cut b'?' l).1)) (address_codes h s)
        ∙ ap (get_first (codes name)) (pieces-parameters h s) in
    (read "host" ∙ value_of-encode h, read "chat" ∙ value_of-encode s)
