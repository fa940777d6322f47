-- ===== src/Vms/Fleet.antt =====
-- The list of VMs in ui/app/vms/page.tsx: what a removal and a classification do to it.
use sysadmin_mcp_assisstant.Prelude.{
  Bool, true, false, not, map, none, some, ◌==◌, ◌≡◌, refl, sym, ◌⊎◌, inl, inr, All, filter-All,
  arith,
}
use mathlib.Core.Path.{subst}
use sysadmin_mcp_assisstant.Task.{start}
use sysadmin_mcp_assisstant.Task.Outcome.{Anything, Ensures}
use sysadmin_mcp_assisstant.Http.Ensured.{Ensures-api_fetch}
use sysadmin_mcp_assisstant.Vms.{
  Host, Classification, State, reclassify, remove, classify_as, classify,
}

-- From where the code resumed, the VMs stay.
abbrev pub SameVms : State → State → Type 0
SameVms b s = s.page.hosts ≡ b.page.hosts

-- Without the operator's agreement a removal does nothing. With it, whatever the backend answers
-- and whatever happens in between: at the end no removal is running, and either no VM of that name
-- is listed any more, or the list is as it was where the handler last resumed.
pub remove_ends :
    (host : Host) (agreed : Bool) (s : State)
    → Ensures SameVms Anything
        (λ b s'.
          (agreed ≡ false → s' ≡ s)
          × (agreed ≡ true
              → (s'.page.removing ≡ "")
                × (All (λ (item : Host). not (item.name == host.name) ≡ true) s'.page.hosts
                    ⊎ SameVms b s')))
        s
        (start (remove host agreed))
        s
unfolding remove
remove_ends host agreed s = (
  λ x. (λ _. refl, λ y. absurd (ground (arith, x, y))),
  λ go.
      Ensures-api_fetch SameVms Anything _ (λ _ _ _ h. h) (λ _. refl) _ _ _ _ _ s _ refl
        (λ r b s' _ _ h. (
          h,
          λ x u _. (
            λ _. (
              λ y. absurd (ground (arith, go, y)),
              λ _. (
                refl,
                inl (filter-All (λ (item : Host). not (item.name == host.name)) u.page.hosts),
              ),
            ),
            λ _. (λ y. absurd (ground (arith, go, y)), λ _. (refl, inr refl)),
          ),
          λ f u _. (λ y. absurd (ground (arith, go, y)), λ _. (refl, inr refl)),
        ))
        (λ _ _ _. (λ y. absurd (ground (arith, go, y)), λ _. (refl, inr refl))),
)

-- The VM has its new classification, in the list that was there, and the form is closed.
abbrev pub Classified : Classification → State → State → Type 0
Classified k b s = (s.page.hosts ≡ map (reclassify k) b.page.hosts) × (s.page.classification ≡ none)

abbrev Ended : Classification → State → State → Type 0
Ended k b s = (s.page.busy ≡ false) × (Classified k b s ⊎ SameVms b s)

classify_as_lem :
    (k : Classification) (s : State)
    → Ensures SameVms Anything (Ended k) s (start (classify_as (some k))) s
classify_as_lem k s =
    Ensures-api_fetch SameVms Anything (Ended k) (λ _ _ _ h. h) (λ _. refl) _ _ _ _ _ s _ refl
      (λ r b s' _ _ h. (
        h,
        λ x u _. (λ _. (refl, inl (refl, refl)), λ _. (refl, inr refl)),
        λ f u _. (refl, inr refl),
      ))
      (λ _ _ _. (refl, inr refl))

-- Whatever the backend answers to a classification that the form shows, and whatever happens in
-- between: at the end the page is not busy, and either exactly the VMs of that name have the new
-- classification and the form is closed, or the list is as it was where the handler last resumed.
pub classify_ends :
    (k : Classification) (s : State)
    → s.page.classification ≡ some k
    → Ensures SameVms Anything
        (λ b s'. (s'.page.busy ≡ false) × (Classified k b s' ⊎ SameVms b s'))
        s
        (start (classify s.page))
        s
unfolding classify
classify_ends k s shown =
    subst (λ o. Ensures SameVms Anything (Ended k) s (start (classify_as o)) s) (sym shown)
      (classify_as_lem k s)
