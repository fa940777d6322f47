-- ===== src/Changes/Workflow.antt =====
-- `completedSteps` of ui/app/changes/page.tsx: the steps of a transaction that are done.
use sysadmin_mcp_assisstant.Prelude.{
  String, Bool, true, false, ◌&&◌, ◌||◌, List, [], ◌∷◌, ◌++◌, is_some, any, when, ◌==◌,
  if◌then◌else◌, ◌≡◌, refl, arith, ap, sym, ◌∙◌,
}
use sysadmin_mcp_assisstant.Prelude.Text.{includes, ends_with}
use sysadmin_mcp_assisstant.Changes.{Action, Evidence, Change}

abbrev labels : List (String × String)
labels =
    ("backup", "Backup")
    ∷ ("apply", "Apply")
    ∷ ("validate", "Validate")
    ∷ ("activate", "Activate")
    ∷ ("verify", "Verify")
    ∷ ("rollback", "Rollback")
    ∷ []

abbrev label_of : String → List (String × String) → List String
label_of stage [] = []
label_of stage ((k, v) ∷ rest) = if k == stage then v ∷ [] else label_of stage rest

abbrev recorded : List Evidence → List String
recorded [] = []
recorded (e ∷ es) = label_of e.stage labels ++ recorded es

abbrev validated : List Evidence → Bool
validated es = any (λ (e : Evidence). e.stage == "validate") es

abbrev on_service : List Action → Bool
on_service xs = any (λ (a : Action). ends_with a.action "_service") xs

-- The set, as a list.
unfoldable pub completed_steps : Change → List String
completed_steps c =
    "Inspect" ∷ "Plan" ∷ when (is_some c.preview) ("Preview" ∷ [])
    ++ recorded c.evidence
    ++ when (validated c.evidence && on_service c.actions) ("Activate" ∷ [])

or_assoc : (a b c : Bool) → (a || b) || c ≡ a || (b || c)
or_assoc a b c = ground arith

any-append : {A : Type 0} (f : A → Bool) (xs ys : List A) → any f (xs ++ ys) ≡ any f xs || any f ys
any-append f [] ys = refl
any-append f (x ∷ xs) ys = ground (arith, any-append f xs ys)

recorded-append :
    (f : String → Bool) (xs ys : List Evidence)
    → any f (recorded (xs ++ ys)) ≡ any f (recorded xs) || any f (recorded ys)
recorded-append f [] ys = refl
recorded-append f (x ∷ xs) ys =
    any-append f (label_of x.stage labels) (recorded (xs ++ ys))
    ∙ ap (λ b. any f (label_of x.stage labels) || b) (recorded-append f xs ys)
    ∙ sym (or_assoc (any f (label_of x.stage labels)) (any f (recorded xs)) (any f (recorded ys)))
    ∙ ap (λ b. b || any f (recorded ys))
        (sym (any-append f (label_of x.stage labels) (recorded xs)))

any-when : (f : String → Bool) (b : Bool) (x : String) → any f (when b (x ∷ [])) ≡ b && f x
any-when f true x = ground arith
any-when f false x = refl

-- What is done, in terms of what each part of the set holds.
any-completed :
    (f : String → Bool) (c : Change)
    → any f (completed_steps c)
      ≡ f "Inspect"
        || f "Plan"
        || any f (when (is_some c.preview) ("Preview" ∷ []))
        || any f (recorded c.evidence)
        || (validated c.evidence && on_service c.actions) && f "Activate"
unfolding completed_steps
any-completed f c =
    let w : List String = when (is_some c.preview) ("Preview" ∷ []) in
    let r = recorded c.evidence in
    let b = validated c.evidence && on_service c.actions in
    ground (
      arith,
      any-append f (w ++ r) (when b ("Activate" ∷ [])),
      any-append f w r,
      any-when f b "Activate",
    )

grows :
    (a b p r r' v v' o x : Bool)
    → a || b || p || r || (v && o) && x ≡ true
    → a || b || p || (r || r') || ((v || v') && o) && x ≡ true
grows a b p r r' v v' o x h = ground (arith, h)

-- A step that is done stays done when the backend appends evidence.
pub completed_steps-grows :
    (c : Change) (more : List Evidence) (s : String)
    → includes (completed_steps c) s ≡ true
    → includes (completed_steps (record c { evidence = c.evidence ++ more })) s ≡ true
completed_steps-grows c more s h =
    let f : String → Bool = λ x. x == s in
    let c' : Change = record c { evidence = c.evidence ++ more } in
    let w = any f (when (is_some c.preview) ("Preview" ∷ [])) in
    ground (
      arith,
      h,
      any-completed f c,
      any-completed f c',
      recorded-append f c.evidence more,
      any-append (λ (e : Evidence). e.stage == "validate") c.evidence more,
      grows (f "Inspect") (f "Plan") w (any f (recorded c.evidence)) (any f (recorded more))
          (validated c.evidence) (validated more) (on_service c.actions) (f "Activate"),
    )
