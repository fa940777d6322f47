-- ===== src/Remediation/Single.antt =====
-- The requests of ui/app/remediation/page.tsx that are in flight.
use sysadmin_mcp_assisstant.Prelude.{
  if◌then◌else◌, ◌≤◌, Bool, true, false, not, [], ◌∷◌, Option, none, some, any, when, ◌≡◌, refl,
  sym,
}
use sysadmin_mcp_assisstant.Prelude.Text.{is_blank}
use sysadmin_mcp_assisstant.Task.{Task, start}
use sysadmin_mcp_assisstant.Task.Pool.{Session, Reach}
use sysadmin_mcp_assisstant.Task.Roles.{Plays}
use sysadmin_mcp_assisstant.View.{spinner, Offers}
use sysadmin_mcp_assisstant.View.Only.{Only, Only-Offers, Only-append, Only-when, Only-if, or_left}
use sysadmin_mcp_assisstant.Http.{Body}
use sysadmin_mcp_assisstant.Page.Exclusive.{Role, working, other, Begins, roles}
use sysadmin_mcp_assisstant.Page.Exclusive.Handlers.{Calm-load, Works-show, Works-receive}
use sysadmin_mcp_assisstant.Page.Exclusive.Sole.{posts, Runs-posts}
use sysadmin_mcp_assisstant.Remediation.{
  Preview, Outcome, Remediation, Data, State, preview_of, outcome_of, has_services, mount,
  choose_host, create_preview, execute_on, execute,
}
use sysadmin_mcp_assisstant.Remediation.Screen.{
  Act, first_render, ask_preview, confirm, drop, pick_host, pick_service, type_password, form_view,
  preview_view, outcome_view, remediation_view, handle,
}

abbrev busy : Remediation → Bool
busy p = p.busy

abbrev Waits : (k : Role) → Task State (Body Data) → State → Type 0
Waits k t s = Plays (roles busy) (Begins busy k) k s t s

-- A preview can be asked for only while the page is not busy.
abbrev Idle : Remediation → Act → Type 0
Idle p ask_preview = p.busy ≡ false
Idle p a = Unit

module _ (p : Remediation) where
  abbrev P : Act → Type 0
  P = Idle p

  form_view-Idle : Only P (form_view p)
  unfolding form_view
  form_view-Idle = (
    λ _ _. tt,
    (
      λ _ _. tt,
      (
        λ _. tt,
        Only-append P (when p.busy (spinner ∷ [])) _ (Only-when P p.busy _ tt)
            (λ e. or_left p.busy _ e, tt),
      ),
    ),
  )

  preview_view-Idle : (q : Option Preview) → Only P (preview_view p q)
  unfolding preview_view
  preview_view-Idle none = tt
  preview_view-Idle (some q) = (
    λ _. tt,
    Only-append P (when p.busy (spinner ∷ [])) _ (Only-when P p.busy _ tt) (λ _. tt, tt),
  )

  outcome_view-Idle : (o : Option Outcome) → Only P (outcome_view o)
  unfolding outcome_view
  outcome_view-Idle none = tt
  outcome_view-Idle (some o) = tt

  remediation_view-Idle : Only P (remediation_view p)
  unfolding remediation_view
  remediation_view-Idle =
      Only-append P (when (not (is_blank p.error)) _) _ (Only-when P (not (is_blank p.error)) _ tt)
        (Only-if P (any has_services p.actions) _ _
          (λ _. Only-append P (form_view p) _ form_view-Idle (
            Only-append P (preview_view p p.preview) _ (preview_view-Idle p.preview)
              (outcome_view-Idle p.outcome)))
          (λ _. tt))

create_preview-Waits :
    (s : State) → s.page.busy ≡ false → Waits working (start (create_preview s.page)) s
unfolding create_preview
create_preview-Waits s idle = Works-receive busy _ _ _ preview_of _ _ _ _ s _ idle refl

execute_on-Waits :
    (q : Option Preview) (b : Bool) (s : State)
    → b ≡ s.page.busy
    → (k : Role) × Waits k (start (execute_on q b)) s
execute_on-Waits none b s same = (other, (tt, refl))
execute_on-Waits (some q) true s same = (other, (λ _. (tt, refl), λ e. absurd (cc)))
execute_on-Waits (some q) false s same =
    (working, (λ e. absurd (cc), λ _. Works-show busy _ _ _ outcome_of _ _ _ s _ (sym same) refl))

mount-Waits : (s : State) → Waits other (start mount) s
unfolding mount
mount-Waits s = Calm-load busy _ _ _ _ _ _ (λ _ _. refl) (λ _ _. refl) s

-- What can happen on the page: its first render, and what it offers.
abbrev pub Happens : State → Act → Type 0
Happens s first_render = Unit
Happens s a = Offers (remediation_view s.page) a

handle-Waits : (a : Act) (s : State) → Happens s a → (k : Role) × Waits k (handle a s.page) s
unfolding handle choose_host execute
handle-Waits first_render s o = (other, mount-Waits s)
handle-Waits ask_preview s o = (
  working,
  create_preview-Waits s (Only-Offers (Idle s.page) _ ask_preview (remediation_view-Idle s.page) o),
)
handle-Waits confirm s o = execute_on-Waits s.page.preview s.page.busy s refl
handle-Waits drop s o = (other, (tt, refl))
handle-Waits (pick_host x) s o = (other, (tt, refl))
handle-Waits (pick_service x) s o = (other, (tt, refl))
handle-Waits (type_password x) s o = (other, (tt, refl))

abbrev pub Runs : Session State (Body Data) → Session State (Body Data) → Type 0
Runs = Reach (λ r b. Unit {0}) Act Happens (λ a s. handle a s.page)

-- From a page with nothing in flight, after any acts that it offers and any answers in any order: at most
-- one handler waits for the answer to a POST, and none where the page is not busy.
pub one_restart :
    (w : State) (y : Session State (Body Data))
    → Runs (record { now = w; tasks = [] }) y
    → posts y.tasks ≤ (if y.now.page.busy then 1 else 0)
one_restart w y runs = Runs-posts busy Happens (λ a s. handle a s.page) handle-Waits w y runs
