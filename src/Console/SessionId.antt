-- ===== src/Console/SessionId.antt =====
-- `createSessionId` of ui/app/page.tsx: a random UUID, version 4.
use Prim.Native.Nat.{bit_and, bit_or}
use sysadmin_mcp_assisstant.Prelude.{ℕ, zero, suc, String, List, [], ◌∷◌, map, ◌≡◌, refl}
use sysadmin_mcp_assisstant.Prelude.Text.{concat, hex_pair, slice_between}

-- `bytes[i] = f(bytes[i])`
abbrev set_at : List ℕ → ℕ → (ℕ → ℕ) → List ℕ
set_at [] i f = []
set_at (x ∷ xs) zero f = f x ∷ xs
set_at (x ∷ xs) (suc i) f = x ∷ set_at xs i f

unfoldable pub create_session_id : List ℕ → String
unfolding concat hex_pair slice_between
create_session_id random =
    let marked = set_at random 6 (λ b. bit_or (bit_and b 0x0f) 0x40) in
    let bytes = set_at marked 8 (λ b. bit_or (bit_and b 0x3f) 0x80) in
    let hex = concat (map (hex_pair "0123456789abcdef") bytes) in
    concat (
      slice_between 0 8 hex
      ∷ "-"
      ∷ slice_between 8 12 hex
      ∷ "-"
      ∷ slice_between 12 16 hex
      ∷ "-"
      ∷ slice_between 16 20 hex
      ∷ "-"
      ∷ slice_between 20 32 hex
      ∷ [])

creates :
    create_session_id (0 ∷ 1 ∷ 2 ∷ 3 ∷ 4 ∷ 5 ∷ 255 ∷ 7 ∷ 255 ∷ 9 ∷ 10 ∷ 11 ∷ 12 ∷ 13 ∷ 14 ∷ 15 ∷ [])
    ≡ "00010203-0405-4f07-bf09-0a0b0c0d0e0f"
unfolding create_session_id
creates = refl
