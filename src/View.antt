-- ===== src/View.antt =====
-- What a page shows, as the list of its widgets in document order: the texts, and the controls
-- with the event that each causes. Layout, class names and icons are left out, except the icon of
-- a running operation.
pub mod Only
use sysadmin_mcp_assisstant.Prelude.{
  String, Bool, true, false, List, [], ◌∷◌, ◌≡◌, ◌⊎◌, ◌==◌, any, ◌&&◌, ◌||◌, not, refl, sym, ◌++◌,
  when, map,
}
use mathlib.Core.Bool.{or_assoc, or-false, and-false}

pub data Widget (E : Type 0) : Type 0 where
  text : String → Widget E
  -- `role="alert"` and `role="status"`
  alert : String → Widget E
  status : String → Widget E
  -- `<LoaderCircle />`
  spinner : Widget E
  -- label, disabled, and what a click does
  button : String → Bool → E → Widget E
  -- label, value, disabled, the options with their labels, and what a choice does
  choice : String → String → Bool → List (String × String) → (String → E) → Widget E
  -- label, value, disabled, and what typing does
  input : String → String → Bool → (String → E) → Widget E
  check : String → Bool → (Bool → E) → Widget E
  -- target and label
  link : String → String → Widget E
  -- the `onSubmit` of a form that a key handler submits with `requestSubmit()`, whatever the form's
  -- button shows; any other form is submitted by its button, or as its button allows
  form : E → Widget E

-- The widget lets the user cause `e`.
abbrev pub Gives : {E : Type 0} → Widget E → E → Type 0
Gives (button l d e') e = (d ≡ false) × (e' ≡ e)
Gives (choice l v d os f) e =
    (d ≡ false) × ((x : String) × (any (λ o. o.0 == x) os ≡ true) × (f x ≡ e))
Gives (input l v d f) e = (d ≡ false) × ((x : String) × (f x ≡ e))
Gives (check l v f) e = (b : Bool) × (f b ≡ e)
Gives (form e') e = e' ≡ e
Gives _ e = ⊥

abbrev pub Offers : {E : Type 0} → List (Widget E) → E → Type 0
Offers [] e = ⊥
Offers (w ∷ ws) e = Gives w e ⊎ Offers ws e

-- An enabled button, or a form that needs none, causes an event that passes the test.
abbrev pub clickable : {E : Type 0} → (E → Bool) → List (Widget E) → Bool
clickable is [] = false
clickable is (button l d e ∷ ws) = (is e && not d) || clickable is ws
clickable is (form e ∷ ws) = is e || clickable is ws
clickable is (w ∷ ws) = clickable is ws

-- The widgets of a part of a page, whose events are wrapped.
abbrev pub lift : {E F : Type 0} → (E → F) → Widget E → Widget F
lift g (text x) = text x
lift g (alert x) = alert x
lift g (status x) = status x
lift g spinner = spinner
lift g (button l d e) = button l d (g e)
lift g (choice l v d os f) = choice l v d os (λ x. g (f x))
lift g (input l v d f) = input l v d (λ x. g (f x))
lift g (check l v f) = check l v (λ b. g (f b))
lift g (link t l) = link t l
lift g (form e) = form (g e)

pub clickable-append :
    {E : Type 0} (is : E → Bool) (xs ys : List (Widget E))
    → clickable is (xs ++ ys) ≡ clickable is xs || clickable is ys
clickable-append is [] ys = refl
clickable-append is (button l d e ∷ ws) ys =
    rw (clickable-append is ws ys) (sym (or_assoc (is e && not d) _ _))
clickable-append is (form e ∷ ws) ys = rw (clickable-append is ws ys) (sym (or_assoc (is e) _ _))
clickable-append is (text x ∷ ws) ys = clickable-append is ws ys
clickable-append is (alert x ∷ ws) ys = clickable-append is ws ys
clickable-append is (status x ∷ ws) ys = clickable-append is ws ys
clickable-append is (spinner ∷ ws) ys = clickable-append is ws ys
clickable-append is (choice l v d os f ∷ ws) ys = clickable-append is ws ys
clickable-append is (input l v d f ∷ ws) ys = clickable-append is ws ys
clickable-append is (check l v f ∷ ws) ys = clickable-append is ws ys
clickable-append is (link t l ∷ ws) ys = clickable-append is ws ys

pub clickable-when :
    {E : Type 0} (is : E → Bool) (b : Bool) (ws : List (Widget E))
    → clickable is (when b ws) ≡ b && clickable is ws
clickable-when is true ws = refl
clickable-when is false ws = refl

pub clickable-texts :
    {E : Type 0} (is : E → Bool) (xs : List String) → clickable is (map (λ x. text x) xs) ≡ false
clickable-texts is [] = refl
clickable-texts is (x ∷ xs) = clickable-texts is xs

pub clickable-lift :
    {E F : Type 0} (g : E → F) (is : F → Bool) (ws : List (Widget E))
    → clickable is (map (lift g) ws) ≡ clickable (λ e. is (g e)) ws
clickable-lift g is [] = refl
clickable-lift g is (button l d e ∷ ws) = rw (clickable-lift g is ws) refl
clickable-lift g is (form e ∷ ws) = rw (clickable-lift g is ws) refl
clickable-lift g is (text x ∷ ws) = clickable-lift g is ws
clickable-lift g is (alert x ∷ ws) = clickable-lift g is ws
clickable-lift g is (status x ∷ ws) = clickable-lift g is ws
clickable-lift g is (spinner ∷ ws) = clickable-lift g is ws
clickable-lift g is (choice l v d os f ∷ ws) = clickable-lift g is ws
clickable-lift g is (input l v d f ∷ ws) = clickable-lift g is ws
clickable-lift g is (check l v f ∷ ws) = clickable-lift g is ws
clickable-lift g is (link t l ∷ ws) = clickable-lift g is ws

-- What can be clicked in a page that is put together from parts.
pub ruleset clicks =
    (clickable-append, clickable-when, clickable-texts, clickable-lift, or-false, and-false)
