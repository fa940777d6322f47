-- ===== src/Software.antt =====
-- ui/app/software/page.tsx: plans of installations, and the installation that is prepared for
-- approval. `active` of the effect is the question whether its number is that of the latest run. The
-- screen is in `Screen`.
pub mod Screen
pub mod Planning
pub mod Targets
pub mod Installs
use sysadmin_mcp_assisstant.Prelude.{
  ℕ, suc, String, Bool, true, false, ◌&&◌, List, [], ◌∷◌, Option, none, some, filter, first,
  opt_map, or_else, eqb,
}
use sysadmin_mcp_assisstant.Prelude.Text.{includes}
use sysadmin_mcp_assisstant.Task.{
  message_of, text, object, field, close, Json, Code, Response, ok, pure, state, ◌>>=◌, ◌>>◌, ite,
  expect, await_json, attempt,
}
use sysadmin_mcp_assisstant.Http.{World, Body, api_fetch}
use sysadmin_mcp_assisstant.Page.{set_page, require_ok, store_csrf, go_to, parsed, guarded}

pub record Profile : Type 0 where
  pub id : String
  pub label : String
  pub upgrade_notes : String
  pub delivery : String

pub record Host : Type 0 where
  pub name : String
  pub environment : String

pub record Plan : Type 0 where
  pub host : String
  pub product : String
  pub operation : String
  pub deployment : String
  pub target_version : String
  pub steps : List String
  pub status : String
  pub blocking_requirements : List String

pub record Software : Type 0 where
  pub profiles : List Profile
  pub hosts : List Host
  pub host : String
  pub product : String
  pub deployment : String
  pub operation : String
  pub version : String
  pub plan : Option Plan
  pub busy : Bool
  pub error : String
  -- how often the effect has run or been cleaned up
  pub mounts : ℕ

unfoldable pub initial : Software
initial = record {
  profiles = [];
  hosts = [];
  host = "";
  product = "nginx";
  deployment = "native";
  operation = "install";
  version = "";
  plan = none;
  busy = false;
  error = "";
  mounts = 0;
}

pub data Data : Type 0 where
  identity : String → Data
  catalog : List Profile → Data
  fleet : List Host → Data
  planned : Plan → Data
  review : String → Data

abbrev pub identity_of : Data → Option String
identity_of (identity token) = some token
identity_of d = none

abbrev pub catalog_of : Data → Option (List Profile)
catalog_of (catalog xs) = some xs
catalog_of d = none

abbrev pub fleet_of : Data → Option (List Host)
fleet_of (fleet xs) = some xs
fleet_of d = none

abbrev pub plan_of : Data → Option Plan
plan_of (planned p) = some p
plan_of d = none

-- `review_path`
abbrev pub review_of : Data → Option String
review_of (review path) = some path
review_of d = none

abbrev pub State : Type 0
State = World Software

abbrev pub Reads : Type 0 → Type 0
Reads A = Code State (Body Data) A

abbrev pub if_mounted : ℕ → Reads (Unit {0}) → Reads (Unit {0})
if_mounted n m = do s ← state; ite (eqb n s.page.mounts) m (pure tt)

abbrev pub is_lab : Host → Bool
is_lab h = includes ("development" ∷ "disposable_lab" ∷ []) h.environment

-- What is read from the two answers to `Promise.all`.
unfoldable pub show_choices : ℕ → Response → Response → Reads (Unit {0})
show_choices n choices machines = do
  require_ok (ok choices && ok machines)
      "Administrator access is required to load software workflows."
  offered ← await_json choices
  profiles ← expect (catalog_of offered.value)
  found ← await_json machines
  rows ← expect (fleet_of found.value)
  let labs = filter is_lab rows
  if_mounted n (
      set_page (λ p. record p {
        profiles = profiles;
        hosts = labs;
        host = or_else (opt_map (λ h. h.name) (first labs)) "";
      }))

-- The effect. `Promise.all` is taken in the order of its members.
unfoldable pub mount : Reads (Unit {0})
mount = do
  set_page (λ p. record p { mounts = suc p.mounts })
  now ← state
  let n = now.page.mounts
  attempt
      (do
        me ← api_fetch "/api/auth/me" none none
        require_ok (ok me) "Sign in to view software workflows."
        body ← await_json me
        token ← expect (identity_of body.value)
        store_csrf token
        choices ← api_fetch "/api/software" none none
        machines ← api_fetch "/api/hosts" none none
        show_choices n choices machines)
      (λ reason.
        if_mounted n
          (set_page (λ p. record p { error = message_of reason "Could not load workflows." })))

-- The cleanup of the effect.
abbrev pub unmount : Reads (Unit {0})
unmount = set_page (λ p. record p { mounts = suc p.mounts })

abbrev pub plan_body : Software → Json
plan_body c = object (
    field "host" (text c.host) (
      field "product" (text c.product) (
        field "operation" (text c.operation) (
          field "deployment" (text c.deployment) (field "target_version" (text c.version) close)))))

-- `preview` of the render that shows `c`, and so `prepareInstall`.
unfoldable pub preview : Software → Reads (Unit {0})
preview c = do
  set_page (λ p. record p { busy = true; error = ""; plan = none })
  guarded
      (do
        response ← api_fetch "/api/software/plan" (some "POST") (some (plan_body c))
        result ← parsed response "Check the VM and exact target version."
        found ← expect (plan_of result.value)
        set_page (λ p. record p { plan = some found }))
      (λ reason p. record p { error = message_of reason "Could not prepare workflow." })
      (λ p. record p { busy = false })

abbrev pub install_body : Software → Json
install_body c = object (
    field "host" (text c.host)
      (field "product" (text c.product) (field "target_version" (text c.version) close)))

unfoldable pub prepare_install : Software → Reads (Unit {0})
prepare_install c = do
  set_page (λ p. record p { busy = true; error = "" })
  guarded
      (do
        response ← api_fetch "/api/software/jobs" (some "POST") (some (install_body c))
        result ← parsed response "Check the version and arm Host scripts for this VM."
        path ← expect (review_of result.value)
        go_to path)
      (λ reason p. record p { error = message_of reason "Could not prepare installation." })
      (λ p. record p { busy = false })
