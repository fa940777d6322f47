-- ===== src/Software/Planning.antt =====
-- The VM that ui/app/software/page.tsx plans for and prepares installations on.
use sysadmin_mcp_assisstant.Prelude.{
  String, true, not, List, [], ◌∷◌, ◌++◌, Option, some, none, map, any, is_empty, when, All, ◌==◌,
  ◌≡◌, refl, sym, ◌⊎◌, inl, inr, eq_iff, ◌∙◌,
}
use mathlib.Core.Bool.{or-false}
use sysadmin_mcp_assisstant.Prelude.Text.{is_blank, replace_all}
use sysadmin_mcp_assisstant.View.{spinner}
use sysadmin_mcp_assisstant.View.Only.{Only, Only-append, Only-when, Only-texts}
use sysadmin_mcp_assisstant.Software.{Host, Plan, Software, State, is_lab}
use sysadmin_mcp_assisstant.Software.Screen.{
  Act, installable, pick_host, choices_view, order_view, plan_view, software_view,
}

-- `x` names one of the hosts, or none is chosen.
abbrev pub Chosen : List Host → String → Type 0
Chosen hosts x = (x ≡ "") ⊎ (any (λ h. h.name == x) hosts ≡ true)

-- The hosts are `Known` and classified as development or disposable lab, and the one chosen is one of
-- them.
abbrev pub OnLab : (Host → Type 0) → State → Type 0
OnLab Known s =
    All (λ (h : Host). (is_lab h ≡ true) × Known h) s.page.hosts × Chosen s.page.hosts s.page.host

-- What an event may choose.
abbrev pub Picks : List Host → Act → Type 0
Picks hosts (pick_host x) = Chosen hosts x
Picks hosts e = Unit

any-names :
    (hosts : List Host) (x : String)
    → any (λ (o : String × String). o.0 == x) (map (λ (h : Host). (h.name, h.name)) hosts)
      ≡ any (λ h. h.name == x) hosts
any-names [] x = refl
any-names (h ∷ hs) x = rw (any-names hs x) refl

offered_Chosen :
    (hosts : List Host) (x : String)
    → any
        (λ (o : String × String). o.0 == x)
        (when (is_empty hosts) (("", "Add a development or disposable-lab VM") ∷ [])
          ++ map (λ (h : Host). (h.name, h.name)) hosts)
      ≡ true
    → Chosen hosts x
offered_Chosen [] x e = inl (sym ((eq_iff "" x).0 (sym (or-false ("" == x)) ∙ e)))
offered_Chosen (h ∷ hs) x e = inr (rw (← any-names (h ∷ hs) x) e)

module _ (p : Software) where
  abbrev P : Act → Type 0
  P = Picks p.hosts

  choices_view-Picks : Only P (choices_view p)
  unfolding choices_view
  choices_view-Picks =
      (λ x. offered_Chosen p.hosts x, (λ _ _. tt, (λ _ _. tt, (λ _ _. tt, (λ _. tt, tt)))))

  order_view-Picks : Only P (order_view p)
  unfolding order_view
  order_view-Picks = Only-append P (when p.busy (spinner ∷ [])) _ (Only-when P p.busy _ tt) (
    λ _. tt,
    Only-append P (when (installable p) _) _ (Only-when P (installable p) _ (λ _. tt, tt)) tt,
  )

  plan_view-Picks : (q : Option Plan) → Only P (plan_view q)
  unfolding plan_view
  plan_view-Picks none = tt
  plan_view-Picks (some q) = Only-texts P (replace_all b'_' " ") q.steps

  pub software_view-Picks : Only P (software_view p)
  unfolding software_view
  software_view-Picks =
      Only-append P (when (not (is_blank p.error)) _) _ (Only-when P (not (is_blank p.error)) _ tt)
        (Only-append P (choices_view p) _ choices_view-Picks
          (Only-append P (order_view p) _ order_view-Picks (plan_view-Picks p.plan)))
