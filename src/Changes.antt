-- ===== src/Changes.antt =====
-- ui/app/changes/page.tsx: change transactions. The backend keeps a transaction's state; the page
-- shows it, and sends the step that the operator asks for. `Workflow` has the steps that are done,
-- `Stages` the buttons of a transaction, `Plans` the form of a plan and `Listing` the rest of the
-- screen, and `Details` what is printed of a preview and of the evidence. `Shapes` has the records.
pub mod Shapes
pub mod Workflow
pub mod Stages
pub mod Records
pub mod Starts
pub mod Plans
pub mod Listing
pub mod Allowed
pub mod Details
pub mod Offered
use sysadmin_mcp_assisstant.Prelude.{
  ℕ, String, Bool, true, false, ◌&&◌, ◌||◌, not, List, [], ◌∷◌, ◌++◌, Option, none, some, filter,
  first, or_else, opt_map, when, ◌==◌, if◌then◌else◌,
}
use sysadmin_mcp_assisstant.Prelude.Text.{is_blank, concat, includes, or_text}
pub use sysadmin_mcp_assisstant.Changes.Shapes.{
  Action, Preview, Service, Evidence, Change, FilePolicy, PackagePolicy, ServicePolicy, PolicySet,
}
use sysadmin_mcp_assisstant.Task.{
  message_of, error, Json, Fields, Items, item, end, text, array, object, field, close, Code, ok,
  pure, throw, ◌>>=◌, ◌>>◌, ite, expect, await_json, attempt, finally,
}
use sysadmin_mcp_assisstant.Http.{World, Body, api_fetch}
use sysadmin_mcp_assisstant.Page.{set_page}

pub record Changes : Type 0 where
  -- the names of the hosts
  pub hosts : List String
  pub items : List Change
  pub file_policies : List (PolicySet FilePolicy)
  pub package_policies : List (PolicySet PackagePolicy)
  pub service_policies : List (PolicySet ServicePolicy)
  pub title : String
  pub host : String
  pub action : String
  pub target : String
  pub value : String
  pub password : String
  pub version : String
  pub activation_password : String
  pub editing_id : Option String
  pub tokens : List (String × String)
  pub busy : Bool
  pub error : String

pub data Data : Type 0 where
  nothing : Data
  host_rows : List String → Data
  change_rows : List Change → Data
  change : Change → Data
  file_rows : List (PolicySet FilePolicy) → Data
  package_rows : List (PolicySet PackagePolicy) → Data
  service_rows : List (PolicySet ServicePolicy) → Data

abbrev hosts_of : Data → Option (List String)
hosts_of (host_rows xs) = some xs
hosts_of d = none

abbrev changes_of : Data → Option (List Change)
changes_of (change_rows xs) = some xs
changes_of d = none

abbrev files_of : Data → Option (List (PolicySet FilePolicy))
files_of (file_rows xs) = some xs
files_of d = none

abbrev packages_of : Data → Option (List (PolicySet PackagePolicy))
packages_of (package_rows xs) = some xs
packages_of d = none

abbrev services_of : Data → Option (List (PolicySet ServicePolicy))
services_of (service_rows xs) = some xs
services_of d = none

abbrev pub change_of : Data → Option Change
change_of (change c) = some c
change_of d = none

abbrev pub State : Type 0
State = World Changes

abbrev pub Reads : Type 0 → Type 0
Reads A = Code State (Body Data) A

-- `tokens[id]`, and `{ ...tokens, [id]: token }`
abbrev pub token_of : String → List (String × String) → String
token_of id [] = ""
token_of id ((k, v) ∷ rest) = if k == id then v else token_of id rest

abbrev pub remember : String → Option String → List (String × String) → List (String × String)
remember id none tokens = tokens
remember id (some t) tokens = if is_blank t then tokens else (id, t) ∷ tokens

-- `[data, ...old.filter((item) => item.id !== data.id)]`
abbrev pub replace : Change → List Change → List Change
replace c old = c ∷ filter (λ item. not (item.id == c.id)) old

-- The value of `call`: the change, or nothing where the request failed.
unfoldable pub call : String → Option Json → Reads (Option Change)
call path body = do
  set_page (λ p. record p { busy = true; error = "" })
  finally
      (attempt
        (do
          response ← api_fetch path (some "POST") body
          data_ ← await_json response
          ite (ok response) (pure tt)
              (throw (error (or_text (or_else data_.detail "") "Request denied.")))
          c ← expect (change_of data_.value)
          set_page (λ p. record p {
            tokens = remember c.id c.approval_token p.tokens;
            items = replace c p.items;
          })
          pure (some c))
        (λ reason. do
          set_page (λ p. record p { error = message_of reason "Request failed." })
          pure none))
      (set_page (λ p. record p { busy = false }))

abbrev pub service_actions : List String
service_actions = "enable_service" ∷ "disable_service" ∷ "reload_service" ∷ "restart_service" ∷ []

abbrev pub package_actions : List String
package_actions = "install_package" ∷ "update_package" ∷ []

-- `...(test ? { [key]: x } : {})`
abbrev field_if : Bool → String → String → Fields → Fields
field_if test key x rest = if test then field key (text x) rest else rest

unfoldable pub create_body : Changes → Json
create_body p = object (
    field "title" (text p.title) (
      field "actions"
        (array (
          item
            (object (
              field "action" (text p.action) (
                field "host" (text p.host) (
                  field "target" (text p.target) (
                    field_if (p.action == "write_managed_file") "value" p.value (
                      field_if (includes package_actions p.action && not (is_blank p.version))
                        "version" p.version close))))))
            end))
        close))

unfoldable pub create_path : Option String → String
create_path none = "/api/changes"
create_path (some id) =
    if is_blank id then "/api/changes" else concat ("/api/changes/" ∷ id ∷ "/revise" ∷ [])

-- `Promise.all` is taken in the order of its members.
unfoldable pub load : Reads (Unit {0})
load = do
  host_response ← api_fetch "/api/hosts" none none
  change_response ← api_fetch "/api/changes" none none
  policy_response ← api_fetch "/api/managed-files/policies" none none
  package_response ← api_fetch "/api/packages/policies" none none
  service_response ← api_fetch "/api/services/policies" none none
  ite
      (ok host_response
        && ok change_response
        && ok policy_response
        && ok package_response
        && ok service_response)
      (pure tt) (throw (error "Could not load change workspace."))
  host_body ← await_json host_response
  hosts ← expect (hosts_of host_body.value)
  set_page (λ p. record p { hosts = hosts; host = or_text p.host (or_else (first hosts) "") })
  change_body ← await_json change_response
  items ← expect (changes_of change_body.value)
  set_page (λ p. record p { items = items })
  policy_body ← await_json policy_response
  files ← expect (files_of policy_body.value)
  set_page (λ p. record p { file_policies = files })
  package_body ← await_json package_response
  packages ← expect (packages_of package_body.value)
  set_page (λ p. record p { package_policies = packages })
  service_body ← await_json service_response
  services ← expect (services_of service_body.value)
  set_page (λ p. record p { service_policies = services })

unfoldable pub mount : Reads (Unit {0})
mount =
    attempt load
      (λ reason. set_page (λ p. record p { error = message_of reason "API unavailable." }))

-- The timer, every 5 seconds.
unfoldable pub tick : Reads (Unit {0})
tick = attempt load (λ _. pure tt)

abbrev finish : Option Change → Reads (Unit {0})
finish none = pure tt
finish (some c) = do
  set_page (λ p. record p { title = ""; target = ""; value = ""; version = ""; editing_id = none })
  load

-- `create` of the render that shows `p`.
unfoldable pub create : Changes → Reads (Unit {0})
create p = do c ← call (create_path p.editing_id) (some (create_body p)); finish c

abbrev edit_as : Change → List Action → Reads (Unit {0})
edit_as c (a ∷ []) = set_page (λ p. record p {
  editing_id = some c.id;
  title = c.title;
  host = a.host;
  action = a.action;
  target = a.target;
  value = or_else a.value "";
  version = or_else a.version "";
})
edit_as c xs = pure tt

unfoldable pub edit : Change → Reads (Unit {0})
edit c = edit_as c c.actions
