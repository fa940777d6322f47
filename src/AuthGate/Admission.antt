-- ===== src/AuthGate/Admission.antt =====
-- The runs of the effect in ui/components/auth-gate.tsx as roles: who may be admitted, what a run relies
-- on while it waits and what it may do.
use sysadmin_mcp_assisstant.Prelude.{
  ap, none, ℕ, String, Bool, true, false, some, ◌≡◌, refl, ◌∙◌, sym, ◌≤◌, ◌<◌, ◌⊎◌, arith,
}
use mathlib.Core.Path.{subst}
use sysadmin_mcp_assisstant.Task.{Request, Task, start, update, ◌>>◌}
use sysadmin_mcp_assisstant.Task.Roles.{Roles, Lawful}
use sysadmin_mcp_assisstant.Http.{Browser, Body, on_browser}
use sysadmin_mcp_assisstant.Prelude.Text.{includes}
use sysadmin_mcp_assisstant.Navigation.{logout}
use sysadmin_mcp_assisstant.AuthGate.{Gate, Data, identity, State, verify, clean_up}

-- The effect runs for the page at a path, the gate is taken down, or the operator signs out.
pub data Event : Type 0 where
  opens : String → Event
  leaves signs_out : Event

-- Where the path changes, the effect runs again: the two are one step here.
unfoldable pub handle : Event → State → Task State (Body Data)
handle (opens path) s = start (do update (on_browser (λ b. record b { path = path })); verify path)
handle leaves s = start clean_up
handle signs_out s = start logout

-- A run that has ended, a request to sign out, and run `n` for the page at a path.
pub data Role : Type 0 where
  ended leaving : Role
  running : ℕ → String → Role

-- The latest run waits behind a gate that is shut.
abbrev pub Holds : Role → State → Type 0
Holds ended s = Unit
Holds leaving s = Unit
Holds (running n path) s =
    (n ≤ s.page.runs) × (n ≡ s.page.runs → (s.page.ready ≡ false) × (s.browser.path ≡ path))

-- A run that is not the latest does nothing; signing out leaves the gate and the path alone.
abbrev pub Does : Role → State → State → Type 0
Does ended s s' = s' ≡ s
Does leaving s s' = (s'.page ≡ s.page) × (s'.browser.path ≡ s.browser.path)
Does (running n path) s s' = (s'.page.runs ≡ s.page.runs) × ((n ≡ s.page.runs → ⊥) → s' ≡ s)

abbrev pub Begins : Role → State → State → Type 0
Begins ended s s' = s.page.runs < s'.page.runs
Begins leaving s s' = Does leaving s s'
Begins (running n path) s s' = (s.page.runs < s'.page.runs) × (n ≡ s'.page.runs)

abbrev pub Apart : Role → Role → Type 0
Apart (running n p) (running m q) = n ≡ m → ⊥
Apart j k = Unit

rest-Apart : (k : Role) → Apart ended k
rest-Apart ended = tt
rest-Apart leaving = tt
rest-Apart (running n p) = tt

Apart-sym : (k j : Role) → Apart k j → Apart j k
Apart-sym ended ended a = tt
Apart-sym ended leaving a = tt
Apart-sym ended (running m q) a = tt
Apart-sym leaving ended a = tt
Apart-sym leaving leaving a = tt
Apart-sym leaving (running m q) a = tt
Apart-sym (running n p) ended a = tt
Apart-sym (running n p) leaving a = tt
Apart-sym (running n p) (running m q) a = λ e. a (sym e)

Does-nothing : (k : Role) (s : State) → Holds k s → Does k s s
Does-nothing ended s h = refl
Does-nothing leaving s h = (refl, refl)
Does-nothing (running n p) s h = (refl, λ _. refl)

leaving-stands :
    (n : ℕ) (path : String) (s s' : State)
    → Does leaving s s'
    → Holds (running n path) s
    → Holds (running n path) s'
leaving-stands n path s s' d h =
    let same : s'.page.runs ≡ s.page.runs = ap (λ (g : Gate). g.runs) (d.0) in
    (
      omega (arith, same, h.0),
      λ e.
          let (closed, at_path) = h.1 (e ∙ same) in
          (ap (λ (g : Gate). g.ready) (d.0) ∙ closed, d.1 ∙ at_path),
    )

Does-stands : (k j : Role) (s s' : State) → Apart k j → Does k s s' → Holds j s → Holds j s'
Does-stands k ended s s' a d h = tt
Does-stands k leaving s s' a d h = tt
Does-stands leaving (running m q) s s' a d h = leaving-stands m q s s' d h
Does-stands ended (running m q) s s' a d h = subst (Holds (running m q)) (sym d) h
Does-stands (running n p) (running m q) s s' a d h = (
  omega (arith, d.0, h.0),
  λ e.
      let same : s' ≡ s = d.1 (λ e'. a (e' ∙ sym (d.0) ∙ sym e)) in
      (subst (Holds (running m q)) (sym same) h).1 e,
)

Begins-stands : (k j : Role) (s s' : State) → Begins k s s' → Holds j s → Apart j k × Holds j s'
Begins-stands k ended s s' b h = (rest-Apart k, tt)
Begins-stands ended leaving s s' b h = (tt, tt)
Begins-stands leaving leaving s s' b h = (tt, tt)
Begins-stands (running n p) leaving s s' b h = (tt, tt)
Begins-stands leaving (running m q) s s' b h = (tt, leaving-stands m q s s' b h)
Begins-stands ended (running m q) s s' b h =
    (tt, (omega (arith, b, h.0), λ e. absurd (omega (arith, b, h.0, e))))
Begins-stands (running n p) (running m q) s s' b h = (
  λ e. absurd (omega (arith, b.0, b.1, h.0, e)),
  (omega (arith, b.0, h.0), λ e. absurd (omega (arith, b.0, h.0, e))),
)

-- `Real token must`: the backend has a session with this token, whose password is or is not due.
module _ (Real : String → Bool → Type 0) where
  -- The page is the sign-in, or there is such a session, whose token is stored, and a password that is
  -- due is being changed there, or the operator has signed out: no token is stored, and the browser has
  -- been sent to the sign-in.
  abbrev pub Signed : Browser → Type 0
  Signed b =
      (b.path ≡ "/login")
      ⊎ ((token : String) × (must : Bool) × Real token must
          × (b.csrf ≡ some token)
          × ((must ≡ false) ⊎ (b.path ≡ "/change-password")))
      ⊎ ((b.csrf ≡ none) × (includes b.visited "/login" ≡ true))

  -- Where the content of the page is shown.
  abbrev pub Admitted : State → Type 0
  Admitted s = s.page.ready ≡ true → Signed s.browser

  -- The identities that the backend answers with are those of its sessions.
  abbrev pub Identifies : Request → Body Data → Type 0
  Identifies r b = (token : String) (must : Bool) → b.value ≡ identity token must → Real token must

  abbrev pub roles : Roles State (Body Data)
  roles = record {
    Role = Role;
    rest = ended;
    Invariant = Admitted;
    Holds = Holds;
    Does = Does;
    Begins = Begins;
    May = λ k r. Unit;
    Apart = Apart;
    Honest = Identifies;
  }

  pub lawful : Lawful roles
  lawful = record {
    rest_holds = λ s. tt;
    rest_apart = rest-Apart;
    apart_sym = Apart-sym;
    does_nothing = Does-nothing;
    does_stands = Does-stands;
    begins_stands = Begins-stands;
  }
