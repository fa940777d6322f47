-- ===== src/Password.antt =====
-- ui/app/change-password/page.tsx: the operator's password.
pub mod Submission
use sysadmin_mcp_assisstant.Prelude.{
  String, Bool, true, false, not, List, [], ◌∷◌, ◌++◌, Option, none, some, when, ◌==◌,
  if◌then◌else◌,
}
use sysadmin_mcp_assisstant.Prelude.Text.{is_blank}
use sysadmin_mcp_assisstant.Task.{
  message_of, Json, Task, text, object, field, close, Code, ok, pure, ◌>>=◌, ◌>>◌, ite, expect,
  await_json, attempt, start,
}
use sysadmin_mcp_assisstant.View.{Widget, alert, spinner, button, input, link}
use sysadmin_mcp_assisstant.Http.{World, Body, api_fetch}
use sysadmin_mcp_assisstant.Page.{set_page, store_csrf, go_to, parsed, guarded}

pub record Password : Type 0 where
  pub current : String
  pub next : String
  pub confirm : String
  pub forced : Bool
  pub error : String
  pub busy : Bool

unfoldable pub initial : Password
initial = record { current = ""; next = ""; confirm = ""; forced = true; error = ""; busy = false }

pub data Data : Type 0 where
  nothing : Data
  identity : String → Bool → Data

abbrev pub identity_of : Data → Option (String × Bool)
identity_of nothing = none
identity_of (identity token must) = some (token, must)

abbrev pub State : Type 0
State = World Password

abbrev Reads : Type 0 → Type 0
Reads A = Code State (Body Data) A

unfoldable pub mount : Reads (Unit {0})
mount =
    attempt
      (do
        response ← api_fetch "/api/auth/me" none none
        ite (not (ok response)) (pure tt) (do
          body ← await_json response
          who ← expect (identity_of body.value)
          store_csrf who.0
          set_page (λ p. record p { forced = who.1 })))
      (λ _. set_page (λ p. record p {
        error = "The local agent API is offline. Start the backend, then try again.";
      }))

abbrev pub change_body : Password → Json
change_body c =
    object (field "current_password" (text c.current) (field "new_password" (text c.next) close))

-- `submit` of the render that shows `c`.
unfoldable pub submit : Password → Reads (Unit {0})
submit c =
    ite (not (c.next == c.confirm))
      (set_page (λ p. record p { error = "New passwords do not match." }))
      (do
        set_page (λ p. record p { busy = true; error = "" })
        guarded
            (do
              response ← api_fetch "/api/auth/change-password" (some "POST") (some (change_body c))
              answered ← parsed response "Could not change password"
              go_to "/")
            (λ reason p. record p {
              error = message_of reason "Could not reach the local agent API.";
            })
            (λ p. record p { busy = false }))

pub data Act : Type 0 where
  first_render change : Act
  type_current type_next type_confirm : String → Act

unfoldable pub password_view : Password → List (Widget Act)
password_view p =
    Widget.text (if p.forced then "Create a secure password" else "Change your password")
      ∷ Widget.text (
          if p.forced
          then "This is required once because the temporary password is still active."
          else "Update your operator password. Use at least 12 characters.")
      ∷ input "Current password" p.current false type_current
      ∷ input "New password" p.next false type_next
      ∷ input "Confirm new password" p.confirm false type_confirm
      ∷ when (not (is_blank p.error)) (alert p.error ∷ [])
    ++ when p.busy (spinner ∷ [])
    ++ button "Change password" p.busy change
      ∷ when (not p.forced) (link "/" "Back to console" ∷ [])

unfoldable pub handle : Act → Password → Task State (Body Data)
handle first_render p = start mount
handle change p = start (submit p)
handle (type_current x) p = start (set_page (λ (s : Password). record s { current = x }))
handle (type_next x) p = start (set_page (λ (s : Password). record s { next = x }))
handle (type_confirm x) p = start (set_page (λ (s : Password). record s { confirm = x }))
