-- ===== src/Backups/Single.antt =====
-- The requests of ui/app/backups/page.tsx that are in flight.
use sysadmin_mcp_assisstant.Prelude.{
  if◌then◌else◌, ◌≤◌, Bool, true, false, not, List, [], ◌∷◌, ◌++◌, Option, none, some, any, when,
  ◌≡◌, refl, sym,
}
use sysadmin_mcp_assisstant.Prelude.Text.{is_blank}
use sysadmin_mcp_assisstant.Task.{Task, start}
use sysadmin_mcp_assisstant.Task.Pool.{Session, Reach}
use sysadmin_mcp_assisstant.Task.Roles.{Plays}
use sysadmin_mcp_assisstant.View.{Widget, spinner, Offers}
use sysadmin_mcp_assisstant.View.Only.{Only, Only-Offers, Only-append, Only-when, Only-if, or_left}
use sysadmin_mcp_assisstant.Http.{Body}
use sysadmin_mcp_assisstant.Page.Exclusive.{Role, working, other, Begins, roles}
use sysadmin_mcp_assisstant.Page.Exclusive.Handlers.{Calm-load, Works-show, Works-receive}
use sysadmin_mcp_assisstant.Page.Exclusive.Sole.{posts, Runs-posts}
use sysadmin_mcp_assisstant.Backups.{
  Preview, Outcome, Backups, Data, State, preview_of, outcome_of, has_jobs, mount, choose_host,
  create_preview, execute_on, execute,
}
use sysadmin_mcp_assisstant.Backups.Screen.{
  Act, first_render, preview_job, confirm_job, cancel_job, pick_host, pick_job, type_password,
  form_view, preview_view, outcome_view, jobs_view, backups_view, handle,
}

abbrev busy : Backups → Bool
busy p = p.busy

abbrev Waits : (k : Role) → Task State (Body Data) → State → Type 0
Waits k t s = Plays (roles busy) (Begins busy k) k s t s

-- A preview can be asked for only while the page is not busy.
abbrev Idle : Backups → Act → Type 0
Idle p preview_job = p.busy ≡ false
Idle p a = Unit

module _ (p : Backups) where
  abbrev P : Act → Type 0
  P = Idle p

  form_view-Idle : Only P (form_view p)
  unfolding form_view
  form_view-Idle = (
    λ _ _. tt,
    (
      λ _ _. tt,
      (
        λ _. tt,
        Only-append P (when p.busy (spinner ∷ [])) _ (Only-when P p.busy _ tt)
            (λ e. or_left p.busy _ e, tt),
      ),
    ),
  )

  preview_view-Idle :
      (q : Option Preview)
      → Only P (elim q as (λ _. List (Widget Act)) [ none ↦ [] | some x ↦ preview_view p x ])
  unfolding preview_view
  preview_view-Idle none = tt
  preview_view-Idle (some q) = (
    λ _. tt,
    Only-append P (when p.busy (spinner ∷ [])) _ (Only-when P p.busy _ tt) (λ _. tt, tt),
  )

  outcome_view-Idle :
      (o : Option Outcome)
      → Only P (elim o as (λ _. List (Widget Act)) [ none ↦ [] | some x ↦ outcome_view x ])
  unfolding outcome_view
  outcome_view-Idle none = tt
  outcome_view-Idle (some o) = Only-when P o.result.truncated _ tt

  backups_view-Idle : Only P (backups_view p)
  unfolding backups_view jobs_view
  backups_view-Idle =
      Only-append P (when (not (is_blank p.error)) _) _ (Only-when P (not (is_blank p.error)) _ tt)
        (Only-if P (any has_jobs p.sets) _ _
          (λ _.
            Only-append P (form_view p ++ _) _
              (Only-append P (form_view p) _ form_view-Idle (preview_view-Idle p.preview))
              (outcome_view-Idle p.outcome))
          (λ _. tt))

create_preview-Waits :
    (s : State) → s.page.busy ≡ false → Waits working (start (create_preview s.page)) s
unfolding create_preview
create_preview-Waits s idle = Works-receive busy _ _ _ preview_of _ _ _ _ s _ idle refl

execute_on-Waits :
    (q : Option Preview) (b : Bool) (s : State)
    → b ≡ s.page.busy
    → (k : Role) × Waits k (start (execute_on q b)) s
execute_on-Waits none b s same = (other, (tt, refl))
execute_on-Waits (some q) true s same = (other, (λ _. (tt, refl), λ e. absurd (cc)))
execute_on-Waits (some q) false s same =
    (working, (λ e. absurd (cc), λ _. Works-show busy _ _ _ outcome_of _ _ _ s _ (sym same) refl))

mount-Waits : (s : State) → Waits other (start mount) s
unfolding mount
mount-Waits s = Calm-load busy _ _ _ _ _ _ (λ _ _. refl) (λ _ _. refl) s

-- What can happen on the page: its first render, and what it offers.
abbrev pub Happens : State → Act → Type 0
Happens s first_render = Unit
Happens s a = Offers (backups_view s.page) a

handle-Waits : (a : Act) (s : State) → Happens s a → (k : Role) × Waits k (handle a s.page) s
unfolding handle choose_host execute
handle-Waits first_render s o = (other, mount-Waits s)
handle-Waits preview_job s o = (
  working,
  create_preview-Waits s (Only-Offers (Idle s.page) _ preview_job (backups_view-Idle s.page) o),
)
handle-Waits confirm_job s o = execute_on-Waits s.page.preview s.page.busy s refl
handle-Waits cancel_job s o = (other, (tt, refl))
handle-Waits (pick_host x) s o = (other, (tt, refl))
handle-Waits (pick_job x) s o = (other, (tt, refl))
handle-Waits (type_password x) s o = (other, (tt, refl))

abbrev pub Runs : Session State (Body Data) → Session State (Body Data) → Type 0
Runs = Reach (λ r b. Unit {0}) Act Happens (λ a s. handle a s.page)

-- From a page with nothing in flight, after any acts that it offers and any answers in any order: at most
-- one handler waits for the answer to a POST, and none where the page is not busy.
pub one_backup :
    (w : State) (y : Session State (Body Data))
    → Runs (record { now = w; tasks = [] }) y
    → posts y.tasks ≤ (if y.now.page.busy then 1 else 0)
one_backup w y runs = Runs-posts busy Happens (λ a s. handle a s.page) handle-Waits w y runs
