-- ===== src/Authority/Scope.antt =====
-- The scope in ui/components/authority-control.tsx: which hosts are offered, and what arming,
-- pausing and stopping come to.
use sysadmin_mcp_assisstant.Prelude.{
  List, [], ◌∷◌, arith, String, Bool, true, false, ◌&&◌, not, filter, if◌then◌else◌, ◌==◌, ◌≡◌,
  refl, sym, ◌⊎◌, All, filter-All, inl, inr,
}
use sysadmin_mcp_assisstant.Prelude.Text.{includes}
use sysadmin_mcp_assisstant.Prelude.Words.{includes-two}
use mathlib.Core.Path.{subst}
use sysadmin_mcp_assisstant.Task.{start, done}
use sysadmin_mcp_assisstant.Task.Outcome.{Anything, Anytime, Ensures, Ensures-expect}
use sysadmin_mcp_assisstant.Http.Ensured.{Ensures-api_fetch}
use sysadmin_mcp_assisstant.Authority.{
  Host, Form, Control, State, authority_of, arm, transition, lab_only, is_lab, selectable_hosts,
}

-- Where only lab VMs can be in the scope.
abbrev pub LabScope : Form → Type 0
LabScope f =
    (f.mode ≡ "autonomous_lab")
    ⊎ (f.mode ≡ "dynamic_sandbox")
    ⊎ (includes f.capabilities "host_scripts" ≡ true)

-- It is classified as development or disposable lab.
abbrev pub Lab : Host → Type 0
Lab h = (h.environment ≡ "development") ⊎ (h.environment ≡ "disposable_lab")

LabScope-lab_only : (f : Form) → LabScope f → lab_only f ≡ true
LabScope-lab_only f (inl e) = rw e refl
LabScope-lab_only f (inr (inl e)) = rw e refl
LabScope-lab_only f (inr (inr e)) = rw e (ground arith)

All-Lab : (hs : List Host) → All (λ (h : Host). is_lab h ≡ true) hs → All Lab hs
All-Lab [] a = tt
All-Lab (h ∷ hs) a = (includes-two "development" "disposable_lab" h.environment a.0, All-Lab hs a.1)

-- Where the mode is Autonomous Lab or the dynamic sandbox, or host scripts are among the capabilities,
-- every host that the form offers is classified as development or disposable lab.
pub selectable_hosts-All : (c : Control) → LabScope c.form → All Lab (selectable_hosts c)
unfolding selectable_hosts
selectable_hosts-All c scope = All-Lab (selectable_hosts c) (
    subst (λ b. All (λ (h : Host). is_lab h ≡ true) (if b then filter is_lab c.hosts else c.hosts))
      (sym (LabScope-lab_only c.form scope)) (filter-All is_lab c.hosts))

-- The password stays until the answer.
abbrev pub Typed : State → State → Type 0
Typed b s = s.page.form ≡ b.page.form

-- Whatever the backend answers to a request to arm a mode, and whatever happens in between: at the
-- end the control is not busy, and either the form is closed and its password cleared, or the form
-- is as it was where the handler last resumed.
pub arm_ends :
    (s : State)
    → Ensures Typed Anything
        (λ b s'.
          (s'.page.busy ≡ false)
          × (((s'.page.is_open ≡ false) × (s'.page.form.password ≡ "")) ⊎ Typed b s'))
        s
        (start (arm s.page))
        s
unfolding arm
arm_ends s =
    Ensures-api_fetch Typed Anything _ (λ _ _ _ h. h) (λ _. refl) _ _ _ _ _ s _ refl
      (λ r b s' _ _ h. (
        h,
        λ x u _. (
          λ _.
              Ensures-expect Typed Anything _ (authority_of x.value) _ _ u u
                (λ a _. (refl, inl (refl, refl))) (λ f. (refl, inr refl)),
          λ _. (refl, inr refl),
        ),
        λ f u _. (refl, inr refl),
      ))
      (λ _ _ _. (refl, inr refl))

true_and_false : (b : Bool) → b ≡ true → b ≡ false → ⊥
true_and_false b x y = absurd (cc)

-- Without the operator's agreement an emergency stop changes nothing; any other transition, and an
-- emergency stop that is agreed to, ends with the control not busy, whatever the backend answers and
-- whatever happens in between.
pub transition_ends :
    (action : String) (agreed : Bool) (s : State)
    → Ensures Anytime Anything
        (λ _ s'.
          (action == "emergency-stop" && not agreed ≡ true → s' ≡ s)
          × (action == "emergency-stop" && not agreed ≡ false → s'.page.busy ≡ false))
        s
        (transition action agreed (λ _. done) (λ _. done))
        s
unfolding transition
transition_ends action agreed s = (
  λ x. (λ _. refl, λ y. absurd (cc)),
  λ y.
      Ensures-api_fetch Anytime Anything _ (λ _ _ _ _. tt) (λ _. tt) _ _ _ _ _ s _ tt
        (λ r b s' _ _ _. (
          tt,
          λ x u _. (
            λ _.
                Ensures-expect Anytime Anything _ (authority_of x.value) _ _ u u
                  (λ a _. (λ x. absurd (true_and_false _ x y), λ _. refl))
                  (λ f. (λ x. absurd (true_and_false _ x y), λ _. refl)),
            λ _. (λ x. absurd (true_and_false _ x y), λ _. refl),
          ),
          λ f u _. (λ x. absurd (true_and_false _ x y), λ _. refl),
        ))
        (λ _ _ _. (λ x. absurd (true_and_false _ x y), λ _. refl)),
)
