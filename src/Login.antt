-- ===== src/Login.antt =====
-- ui/app/login/page.tsx: signing in.
pub mod Attempts
pub mod Admitted
pub mod Repeats
use sysadmin_mcp_assisstant.Prelude.{
  String, Bool, true, false, not, List, [], ◌∷◌, ◌++◌, Option, none, some, when, if◌then◌else◌,
}
use sysadmin_mcp_assisstant.Prelude.Text.{is_blank, concat}
use sysadmin_mcp_assisstant.Task.{
  message_of, Json, Request, Task, text, object, field, close, Code, state, ◌>>=◌, ◌>>◌, expect,
  await_fetch, start,
}
use sysadmin_mcp_assisstant.View.{Widget, alert, spinner, button, input, form}
use sysadmin_mcp_assisstant.Http.{Browser, World, Body, api}
use sysadmin_mcp_assisstant.Page.{set_page, store_csrf, go_to, parsed, guarded}

pub record Login : Type 0 where
  pub username : String
  pub password : String
  pub error : String
  pub busy : Bool

unfoldable pub initial : Login
initial = record { username = "admin"; password = ""; error = ""; busy = false }

pub data Data : Type 0 where
  nothing : Data
  identity : String → Bool → Data

abbrev pub identity_of : Data → Option (String × Bool)
identity_of nothing = none
identity_of (identity token must) = some (token, must)

abbrev pub State : Type 0
State = World Login

abbrev pub login_request : Login → Browser → Request
login_request c b = record {
  path = concat (api b ∷ "/api/auth/login" ∷ []);
  verb = "POST";
  csrf = none;
  body =
      some (object (field "username" (text c.username) (field "password" (text c.password) close)));
}

-- `submit` of the render that shows `c`.
unfoldable pub submit : Login → Code State (Body Data) (Unit {0})
submit c = do
  set_page (λ l. record l { busy = true; error = "" })
  guarded
      (do
        w ← state
        response ← await_fetch (login_request c w.browser)
        data_ ← parsed response "Sign in failed"
        who ← expect (identity_of data_.value)
        store_csrf who.0
        go_to (if who.1 then "/change-password" else "/"))
      (λ e l. record l { error = message_of e "Sign in failed" }) (λ l. record l { busy = false })

pub data Act : Type 0 where
  sign_in : Act
  type_username type_password : String → Act

unfoldable pub login_view : Login → List (Widget Act)
login_view l =
    Widget.text "Evesdropctl"
      ∷ Widget.text "Secure operator sign in"
      ∷ form sign_in
      ∷ input "Username" l.username false type_username
      ∷ input "Password" l.password false type_password
      ∷ when (not (is_blank l.error)) (alert l.error ∷ [])
    ++ when l.busy (spinner ∷ [])
    ++ button "Sign in" l.busy sign_in
      ∷ Widget.text "First login: admin / admin. You must replace it before accessing diagnostics."
      ∷ []

unfoldable pub handle : Act → Login → Task State (Body Data)
handle sign_in l = start (submit l)
handle (type_username x) l = start (set_page (λ (s : Login). record s { username = x }))
handle (type_password x) l = start (set_page (λ (s : Login). record s { password = x }))
