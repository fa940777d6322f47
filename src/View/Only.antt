-- ===== src/View/Only.antt =====
-- What every event that a page lets the user cause satisfies, from what its widgets do.
use sysadmin_mcp_assisstant.Prelude.{
  String, Bool, true, false, List, [], ◌∷◌, ◌++◌, ◌≡◌, inl, inr, any, when, map, ◌==◌, refl,
  if◌then◌else◌, ◌||◌, arith,
}
use mathlib.Core.Path.{subst}
use sysadmin_mcp_assisstant.View.{
  Widget, text, alert, status, spinner, button, choice, input, check, link, form, Offers,
}

-- What a button is disabled by does not hold where it is enabled.
pub or_left : (a b : Bool) → a || b ≡ false → a ≡ false
or_left a b h = ground arith

module _ {E : Type 0} (P : E → Type 0) where
  -- Each event that one of the widgets can cause satisfies `P`, for a button where it is enabled.
  abbrev pub Only : List (Widget E) → Type 0
  Only [] = Unit
  Only (button l d e ∷ ws) = (d ≡ false → P e) × Only ws
  Only (choice l v d os f ∷ ws) = ((x : String) → any (λ o. o.0 == x) os ≡ true → P (f x)) × Only ws
  Only (input l v d f ∷ ws) = ((x : String) → P (f x)) × Only ws
  Only (check l v f ∷ ws) = ((b : Bool) → P (f b)) × Only ws
  Only (form e ∷ ws) = P e × Only ws
  Only (text x ∷ ws) = Only ws
  Only (alert x ∷ ws) = Only ws
  Only (status x ∷ ws) = Only ws
  Only (spinner ∷ ws) = Only ws
  Only (link t l ∷ ws) = Only ws

  pub Only-Offers : (ws : List (Widget E)) (e : E) → Only ws → Offers ws e → P e
  Only-Offers (button l d x ∷ ws) e h (inl o) = subst P o.1 (h.0 o.0)
  Only-Offers (choice l v d os f ∷ ws) e h (inl o) = let (d', (x, m, q)) = o in subst P q (h.0 x m)
  Only-Offers (input l v d f ∷ ws) e h (inl o) = let (d', (x, q)) = o in subst P q (h.0 x)
  Only-Offers (check l v f ∷ ws) e h (inl o) = let (b, q) = o in subst P q (h.0 b)
  Only-Offers (form x ∷ ws) e h (inl o) = subst P o h.0
  Only-Offers [] e h o = absurd o
  Only-Offers (text x ∷ ws) e h (inl o) = absurd o
  Only-Offers (alert x ∷ ws) e h (inl o) = absurd o
  Only-Offers (status x ∷ ws) e h (inl o) = absurd o
  Only-Offers (spinner ∷ ws) e h (inl o) = absurd o
  Only-Offers (link t l ∷ ws) e h (inl o) = absurd o
  Only-Offers (button l d x ∷ ws) e h (inr o) = Only-Offers ws e h.1 o
  Only-Offers (choice l v d os f ∷ ws) e h (inr o) = Only-Offers ws e h.1 o
  Only-Offers (input l v d f ∷ ws) e h (inr o) = Only-Offers ws e h.1 o
  Only-Offers (check l v f ∷ ws) e h (inr o) = Only-Offers ws e h.1 o
  Only-Offers (form x ∷ ws) e h (inr o) = Only-Offers ws e h.1 o
  Only-Offers (text x ∷ ws) e h (inr o) = Only-Offers ws e h o
  Only-Offers (alert x ∷ ws) e h (inr o) = Only-Offers ws e h o
  Only-Offers (status x ∷ ws) e h (inr o) = Only-Offers ws e h o
  Only-Offers (spinner ∷ ws) e h (inr o) = Only-Offers ws e h o
  Only-Offers (link t l ∷ ws) e h (inr o) = Only-Offers ws e h o

  pub Only-append : (xs ys : List (Widget E)) → Only xs → Only ys → Only (xs ++ ys)
  Only-append [] ys hx hy = hy
  Only-append (button l d x ∷ ws) ys hx hy = (hx.0, Only-append ws ys hx.1 hy)
  Only-append (choice l v d os f ∷ ws) ys hx hy = (hx.0, Only-append ws ys hx.1 hy)
  Only-append (input l v d f ∷ ws) ys hx hy = (hx.0, Only-append ws ys hx.1 hy)
  Only-append (check l v f ∷ ws) ys hx hy = (hx.0, Only-append ws ys hx.1 hy)
  Only-append (form x ∷ ws) ys hx hy = (hx.0, Only-append ws ys hx.1 hy)
  Only-append (text x ∷ ws) ys hx hy = Only-append ws ys hx hy
  Only-append (alert x ∷ ws) ys hx hy = Only-append ws ys hx hy
  Only-append (status x ∷ ws) ys hx hy = Only-append ws ys hx hy
  Only-append (spinner ∷ ws) ys hx hy = Only-append ws ys hx hy
  Only-append (link t l ∷ ws) ys hx hy = Only-append ws ys hx hy

  pub Only-when : (b : Bool) (ws : List (Widget E)) → Only ws → Only (when b ws)
  Only-when true ws h = h
  Only-when false ws h = tt

  pub Only-texts : (f : String → String) (xs : List String) → Only (map (λ x. text (f x)) xs)
  Only-texts f [] = tt
  Only-texts f (x ∷ xs) = Only-texts f xs

  pub Only-if :
      (b : Bool) (xs ys : List (Widget E))
      → (b ≡ true → Only xs)
      → (b ≡ false → Only ys)
      → Only (if b then xs else ys)
  Only-if true xs ys hx hy = hx refl
  Only-if false xs ys hx hy = hy refl
