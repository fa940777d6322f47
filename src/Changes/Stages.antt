-- ===== src/Changes/Stages.antt =====
-- The buttons of a transaction in ui/app/changes/page.tsx: which step the operator can ask for, and
-- what asking for it comes to.
use sysadmin_mcp_assisstant.Prelude.{
  String, Bool, true, false, ◌&&◌, ◌||◌, List, [], ◌∷◌, ◌++◌, Option, none, some, any, length, eqb,
  when, or_else, ◌==◌, ◌≡◌, refl,
}
use sysadmin_mcp_assisstant.Prelude.Text.{is_blank, concat, includes}
use sysadmin_mcp_assisstant.Task.{Json, object, field, close, Task, start, pure, ◌>>=◌}
use sysadmin_mcp_assisstant.Task.Outcome.{Anything, Anytime, Ensures, Ensures-expect}
use sysadmin_mcp_assisstant.View.{Widget, button, input}
use sysadmin_mcp_assisstant.Http.{Body}
use sysadmin_mcp_assisstant.Http.Ensured.{Ensures-api_fetch}
use sysadmin_mcp_assisstant.Page.{set_page}
use sysadmin_mcp_assisstant.Changes.{
  Change, Changes, Data, State, Reads, Preview, Service, token_of, change_of, call, edit,
}

pub data Act : Type 0 where
  ask_preview approve begin advance accept roll_back revise cancel : Act
  type_password type_activation : String → Act

-- `x.service?.material_approval_required`
abbrev is_material : Option Service → Bool
is_material none = false
is_material (some x) = x.material_approval_required

abbrev pub needs_confirmation : Change → Bool
needs_confirmation c = any (λ (x : Preview). is_material x.service) (or_else c.preview [])

abbrev pub open_states : List String
open_states = "planned" ∷ "previewed" ∷ "approved" ∷ []

abbrev pub running_states : List String
running_states = "backed_up" ∷ "applying" ∷ "validating" ∷ "activating" ∷ []

-- The buttons of a transaction that runs or can be withdrawn.
abbrev pub later_view : Changes → Change → List (Widget Act)
later_view p c =
    when (includes running_states c.state) (
      when (c.state == "validating" && needs_confirmation c)
        (input "Confirm material activation" p.activation_password false type_activation ∷ [])
      ++ button "Advance one stage"
          (p.busy
            || (c.state == "validating" && needs_confirmation c && is_blank p.activation_password))
          advance
        ∷ [])
    ++ (when (c.state == "verifying") (
          button "Accept evidence" p.busy accept ∷ button "Simulate rollback" p.busy roll_back ∷ [])
        ++ (when (includes open_states c.state && eqb (length c.actions) 1)
              (button "Edit plan" p.busy revise ∷ [])
            ++ when (includes open_states c.state) (button "Reject plan" p.busy cancel ∷ [])))

unfoldable pub stage_view : Changes → Change → List (Widget Act)
stage_view p c =
    when (c.state == "planned") (button "Preview" p.busy ask_preview ∷ [])
    ++ (when (c.state == "previewed") (
          input "Re-enter password" p.password false type_password
          ∷ button "Approve" (p.busy || is_blank p.password) approve
          ∷ [])
        ++ (when (c.state == "approved")
              (button "Start with backup" (p.busy || is_blank (token_of c.id p.tokens)) begin ∷ [])
            ++ later_view p c))

abbrev pub step_path : Change → String → String
step_path c step = concat ("/api/changes/" ∷ c.id ∷ "/" ∷ step ∷ [])

abbrev send_step : Change → String → Option Json → Reads (Unit {0})
send_step c step body = do x ← call (step_path c step) body; pure tt

abbrev pub one_field : String → String → Json
one_field key x = object (field key (Json.text x) close)

unfoldable pub handle : Act → Change → Changes → Task State (Body Data)
handle ask_preview c p = start (send_step c "preview" none)
handle approve c p = start (do
  x ← call (step_path c "approve") (some (one_field "password" p.password))
  set_page (λ (s : Changes). record s { password = "" }))
handle begin c p =
    start (send_step c "start" (some (one_field "approval_token" (token_of c.id p.tokens))))
handle advance c p = start (do
  x ← call (step_path c "advance") (
      some (
        object (elim (is_blank p.activation_password) [
          | true ↦ close
          | false ↦ field "activation_password" (Json.text p.activation_password) close
        ])))
  set_page (λ (s : Changes). record s { activation_password = "" }))
handle accept c p = start (send_step c "accept" none)
handle roll_back c p = start (send_step c "rollback" none)
handle revise c p = start (edit c)
handle cancel c p = start (send_step c "cancel" none)
handle (type_password x) c p = start (set_page (λ (s : Changes). record s { password = x }))
handle (type_activation x) c p =
    start (set_page (λ (s : Changes). record s { activation_password = x }))

-- At the end of the approval of a transaction, whatever the backend answers and whatever happens in
-- between, the password is no longer in the page and the page is not busy.
pub approve_ends :
    (c : Change) (s : State)
    → Ensures Anytime Anything
        (λ _ s'. (s'.page.password ≡ "") × (s'.page.busy ≡ false))
        s
        (handle approve c s.page)
        s
unfolding handle call
approve_ends c s =
    Ensures-api_fetch Anytime Anything _ (λ _ _ _ _. tt) (λ _. tt) _ _ _ _ _ s _ tt
      (λ r b s' _ _ _. (
        tt,
        λ x u _. (
          λ _.
              Ensures-expect Anytime Anything _ (change_of x.value) _ _ u u (λ d _. (refl, refl))
                (λ f. (refl, refl)),
          λ _. (refl, refl),
        ),
        λ f u _. (refl, refl),
      ))
      (λ _ _ _. (refl, refl))
