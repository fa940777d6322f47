-- ===== src/Changes/Allowed.antt =====
-- What the form of a plan in ui/app/changes/page.tsx lets the operator choose: the policies of the
-- host and the action.
use sysadmin_mcp_assisstant.Prelude.{
  find, or_else, opt_map, filter, Bool-cases, inl, inr, arith, String, Bool, true, false, ◌&&◌,
  ◌||◌, List, [], ◌∷◌, Option, none, some, map, any, when, ◌==◌, if◌then◌else◌, ◌≡◌, refl, sym, ◌∙◌,
  ap,
}
use sysadmin_mcp_assisstant.Prelude.Text.{includes}
use sysadmin_mcp_assisstant.View.{spinner, Offers}
use sysadmin_mcp_assisstant.View.Only.{Only, Only-Offers, Only-append, Only-when, Only-if}
use sysadmin_mcp_assisstant.Changes.{
  PolicySet, FilePolicy, PackagePolicy, ServicePolicy, Changes, package_actions, service_actions,
}
use sysadmin_mcp_assisstant.Changes.Plans.{
  entries_of, Event, pick_host, pick_target, pick_package, type_target, available_files,
  available_packages, available_services, selected_package, file_choice, package_choice,
  service_choice, free_choice, version_view, target_view, plan_view, is_editing,
}

-- A policy of the host passes the test.
abbrev pub of_host : {A : Type 0} → String → (A → Bool) → List (PolicySet A) → Bool
of_host host test sets = any (λ x. x.host == host && any test x.entries) sets

abbrev pub service_steps : List String
service_steps = "enable_service" ∷ "disable_service" ∷ "reload_service" ∷ "restart_service" ∷ []

any-entries_of :
    {A : Type 0} (host : String) (test : A → Bool) (sets : List (PolicySet A))
    → any test (entries_of host sets) ≡ true
    → of_host host test sets ≡ true
any-entries_of host test [] h = absurd (cc)
any-entries_of host test (x ∷ xs) h =
    let found : Bool → Bool = λ b. any test (
      or_else (opt_map (λ y. y.entries) (if b then some x else find (λ y. y.host == host) xs))
        []) in
    elim (Bool-cases (x.host == host)) [
      | inl e ↦ rw e (ground (arith, sym (ap found e) ∙ h))
      | inr e ↦ rw e (any-entries_of host test xs (sym (ap found e) ∙ h))
    ]

any-filter :
    {A : Type 0} (keep test : A → Bool) (xs : List A)
    → any test (filter keep xs) ≡ any (λ x. keep x && test x) xs
any-filter keep test [] = refl
any-filter keep test (x ∷ xs) = elim (Bool-cases (keep x)) [
  | inl e ↦ rw (e, any-filter keep test xs) refl
  | inr e ↦ rw (e, any-filter keep test xs) refl
]

or_later : (a b c : Bool) → (b ≡ true → c ≡ true) → a || b ≡ true → a || c ≡ true
or_later true b c h e = refl
or_later false b c h e = h e

-- The id of a policy of the chosen host for the chosen action.
abbrev pub allowed : Changes → String → Bool
allowed p x =
    if p.action == "write_managed_file"
    then of_host p.host (λ (f : FilePolicy). f.id == x) p.file_policies
    else if includes ("install_package" ∷ "update_package" ∷ []) p.action
    then of_host p.host (λ (f : PackagePolicy). f.id == x) p.package_policies
    else includes service_steps p.action
      && of_host p.host (λ (f : ServicePolicy). includes f.actions p.action && f.id == x)
          p.service_policies

-- An action that a policy limits.
abbrev pub limited : String → Bool
limited a =
    a == "write_managed_file"
    || includes ("install_package" ∷ "update_package" ∷ []) a
    || includes service_steps a

-- What an event may choose: a target that a policy allows or none, any target only where no policy
-- limits the action, and a host of the inventory.
abbrev pub Permits : Changes → Event → Type 0
Permits p (pick_target x) = "" == x || allowed p x ≡ true
Permits p (pick_package x) = "" == x || allowed p x ≡ true
Permits p (type_target x) = limited p.action ≡ false
Permits p (pick_host x) = includes p.hosts x ≡ true
Permits p e = Unit

any-map :
    {A : Type 0} (f : A → String × String) (x : String) (xs : List A)
    → any (λ (o : String × String). o.0 == x) (map f xs) ≡ any (λ a. (f a).0 == x) xs
any-map f x [] = refl
any-map f x (a ∷ as') = ap (λ b. ((f a).0 == x) || b) (any-map f x as')

module _ (p : Changes) where
  abbrev P : Event → Type 0
  P = Permits p

  version_view-Permits : (o : Option PackagePolicy) → Only P (version_view o p)
  version_view-Permits none = tt
  version_view-Permits (some x) = (λ _ _. tt, tt)

  file_choice-Permits : p.action == "write_managed_file" ≡ true → Only P (file_choice p)
  file_choice-Permits w = (
    λ x m. rw w (
        or_later ("" == x) _ _
          (λ h. any-entries_of p.host _ p.file_policies (sym (any-map _ x (available_files p)) ∙ h))
          m),
    tt,
  )

  package_choice-Permits :
      p.action == "write_managed_file" ≡ false
      → includes package_actions p.action ≡ true
      → Only P (package_choice p)
  package_choice-Permits n g = (
    λ x m.
        rw (n, g)
          (or_later ("" == x) _ _
            (λ h.
              any-entries_of p.host _ p.package_policies
                (sym (any-map _ x (available_packages p)) ∙ h))
            m),
    version_view-Permits (selected_package p),
  )

  service_choice-Permits :
      p.action == "write_managed_file" ≡ false
      → includes package_actions p.action ≡ false
      → includes service_actions p.action ≡ true
      → Only P (service_choice p)
  service_choice-Permits n g v = (
    λ x m.
        rw (n, g, v)
          (or_later ("" == x) _ _
            (λ h. any-entries_of p.host _ p.service_policies (
              sym (any-filter _ _ (entries_of p.host p.service_policies))
              ∙ (sym (any-map _ x (available_services p)) ∙ h)))
            m),
    tt,
  )

  target_view-Permits : Only P (target_view p)
  unfolding target_view
  target_view-Permits =
      Only-if P (p.action == "write_managed_file") (file_choice p) _ file_choice-Permits (λ n.
        Only-if P (includes package_actions p.action) (package_choice p) _
          (package_choice-Permits n)
          (λ g.
            Only-if P (includes service_actions p.action) (service_choice p) (free_choice p)
              (service_choice-Permits n g) (λ v. (λ x. rw (n, g, v) refl, tt))))

  plan_view-Permits : Only P (plan_view p)
  unfolding plan_view
  plan_view-Permits =
      Only-append P (when (is_editing p) _) _ (Only-when P (is_editing p) _ (λ _. tt, tt)) (
        λ _. tt,
        (
          λ x m. sym (any-map (λ h. (h, h)) x p.hosts) ∙ m,
          (
            λ _ _. tt,
            Only-append P (target_view p) _ target_view-Permits (
                Only-append P (when (p.action == "write_managed_file") _) _
                  (Only-when P (p.action == "write_managed_file") _ (λ _. tt, tt))
                  (Only-append P (when p.busy _) _ (Only-when P p.busy (spinner ∷ []) tt)
                    (λ _. tt, tt))),
          ),
        ),
      )

  -- The operator can choose as the target of a plan nothing or a policy's id for the chosen host and
  -- action, can type one only where no policy limits the action, and can choose only hosts of the
  -- inventory.
  pub plan_view-allowed : (e : Event) → Offers (plan_view p) e → Permits p e
  plan_view-allowed e o = Only-Offers P (plan_view p) e plan_view-Permits o
