-- ===== src/Prelude/Words.antt =====
-- What a list of words that includes a text says of it.
use sysadmin_mcp_assisstant.Prelude.{
  String, true, [], ◌∷◌, ◌==◌, ◌≡◌, sym, ◌⊎◌, inl, inr, eq_iff, Bool-cases, arith,
}
use sysadmin_mcp_assisstant.Prelude.Text.{includes}

pub includes-two : (a b x : String) → includes (a ∷ b ∷ []) x ≡ true → (x ≡ a) ⊎ (x ≡ b)
includes-two a b x h = elim (Bool-cases (a == x)) [
  | inl e ↦ inl (sym ((eq_iff a x).0 e))
  | inr e ↦ inr (sym ((eq_iff b x).0 (ground (arith, e, h))))
]
