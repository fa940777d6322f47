-- ===== src/Authority.antt =====
-- ui/components/authority-control.tsx: the mode in which the agent may act on VMs. `Number` of a
-- text is the argument `to_number`; `confirm` is an argument of `transition`. The screen is in
-- `Screen`.
pub mod Answers
pub mod Screen
pub mod Scope
use sysadmin_mcp_assisstant.Prelude.{
  ℕ, String, Bool, true, false, ◌&&◌, ◌||◌, not, List, [], ◌∷◌, ◌++◌, Option, none, some, filter,
  or_else, opt_map, ◌==◌, if◌then◌else◌,
}
use sysadmin_mcp_assisstant.Prelude.Text.{concat, includes}
use sysadmin_mcp_assisstant.Task.{
  message_of, Json, texts, text, number, array, object, field, close, Code, ok, pure, ◌>>=◌, ◌>>◌,
  ite, expect, await_json, attempt, finally,
}
use sysadmin_mcp_assisstant.Http.{World, Body, api_fetch}
use sysadmin_mcp_assisstant.Page.{set_page, parsed, guarded}

-- `mode` is `observe`, `guided`, `autonomous_lab` or `dynamic_sandbox`, and `status` is `inactive`,
-- `active` or `paused`; the fields that the component does not use are left out.
pub record Authority : Type 0 where
  pub mode : String
  pub status : String
  pub hosts : List String
  pub capabilities : List String
  pub expires_at : Option String
  pub available_capabilities : Option (List String)
  pub available_recipe_ids : Option (List String)

pub record Host : Type 0 where
  pub name : String
  pub environment : String

pub record Form : Type 0 where
  pub mode : String
  pub hosts : List String
  pub capabilities : List String
  pub duration_minutes : ℕ
  pub recipe_ids : List String
  pub action_budget : ℕ
  pub concurrency : ℕ
  pub password : String

pub record Control : Type 0 where
  pub authority : Option Authority
  pub hosts : List Host
  pub is_open : Bool
  pub busy : Bool
  pub error : String
  -- in milliseconds
  pub clock : ℕ
  pub form : Form

unfoldable pub initial : ℕ → Control
initial now = record {
  authority = none;
  hosts = [];
  is_open = false;
  busy = false;
  error = "";
  clock = now;
  form = record {
    mode = "guided";
    hosts = [];
    capabilities = "host_scripts" ∷ [];
    duration_minutes = 15;
    recipe_ids = [];
    action_budget = 5;
    concurrency = 1;
    password = "";
  };
}

pub data Data : Type 0 where
  nothing : Data
  authority_body : Authority → Data
  host_rows : List Host → Data

abbrev pub authority_of : Data → Option Authority
authority_of (authority_body a) = some a
authority_of d = none

abbrev hosts_of : Data → Option (List Host)
hosts_of (host_rows xs) = some xs
hosts_of d = none

abbrev pub State : Type 0
State = World Control

abbrev Reads : Type 0 → Type 0
Reads A = Code State (Body Data) A

-- `Promise.all` is taken in the order of its members.
unfoldable pub refresh : Reads (Unit {0})
refresh = do
  mode_response ← api_fetch "/api/authority" none none
  host_response ← api_fetch "/api/hosts" none none
  ite (not (ok mode_response) || not (ok host_response)) (pure tt) (do
    mode_body ← await_json mode_response
    a ← expect (authority_of mode_body.value)
    set_page (λ c. record c { authority = some a })
    host_body ← await_json host_response
    hosts ← expect (hosts_of host_body.value)
    set_page (λ c. record c { hosts = hosts }))

abbrev observing : Option Authority → Bool
observing none = false
observing (some a) = a.mode == "observe"

-- The timer, every 10 seconds, of the render that shows `c`.
unfoldable pub tick : ℕ → Control → Reads (Unit {0})
tick now c = do
  set_page (λ s. record s { clock = now })
  ite (not (observing c.authority)) refresh (pure tt)

abbrev pub arm_body : Form → Json
arm_body f = object (
    field "mode" (text f.mode) (
      field "hosts" (array (texts f.hosts)) (
        field "capabilities" (array (texts f.capabilities)) (
          field "duration_minutes" (number f.duration_minutes) (
            field "recipe_ids" (array (texts f.recipe_ids)) (
              field "action_budget" (number f.action_budget) (
                field "concurrency" (number f.concurrency)
                  (field "password" (text f.password) close))))))))

-- `arm` of the render that shows `c`, and so the handlers below.
unfoldable pub arm : Control → Reads (Unit {0})
arm c = do
  set_page (λ s. record s { busy = true; error = "" })
  guarded
      (do
        response ← api_fetch "/api/authority/arm" (some "POST") (some (arm_body c.form))
        data_ ← parsed response "Could not arm authority mode."
        a ← expect (authority_of data_.value)
        set_page (λ s. record s {
          authority = some a;
          is_open = false;
          form = record s.form { password = "" };
        }))
      (λ reason s. record s { error = message_of reason "Could not arm authority mode." })
      (λ s. record s { busy = false })

-- Whether it returned `true`; `agreed` is what `confirm` returns.
unfoldable pub transition : String → Bool → Reads Bool
transition action agreed = ite (action == "emergency-stop" && not agreed) (pure false) (do
  set_page (λ s. record s { busy = true; error = "" })
  finally
      (attempt
        (do
          response ← api_fetch (concat ("/api/authority/" ∷ action ∷ [])) (some "POST") none
          data_ ← parsed response (concat ("Could not " ∷ action ∷ " authority mode." ∷ []))
          a ← expect (authority_of data_.value)
          set_page (λ s. record s { authority = some a })
          pure true)
        (λ reason. do
          set_page (λ s. record s { error = message_of reason "Authority transition failed." })
          pure false))
      (set_page (λ s. record s { busy = false })))

-- The button `Change scope` of a render that shows the authority `previous`.
unfoldable pub change_scope : Authority → Reads (Unit {0})
change_scope previous = do
  stopped ← transition "stop" true
  ite stopped
      (set_page (λ s. record s {
        form = record s.form {
          mode = (if previous.mode == "observe" then "guided" else previous.mode);
          hosts = previous.hosts;
          capabilities = previous.capabilities;
          password = "";
        };
        is_open = true;
      }))
      (pure tt)

abbrev pub is_lab : Host → Bool
is_lab h = includes ("development" ∷ "disposable_lab" ∷ []) h.environment

-- The mode or the capabilities ask for hosts that are not in production.
abbrev pub lab_only : Form → Bool
lab_only f =
    includes ("autonomous_lab" ∷ "dynamic_sandbox" ∷ []) f.mode
    || includes f.capabilities "host_scripts"

unfoldable pub selectable_hosts : Control → List Host
selectable_hosts c = if lab_only c.form then filter is_lab c.hosts else c.hosts

-- `on ? [...xs, x] : xs.filter((item) => item !== x)`
unfoldable pub toggled : Bool → String → List String → List String
toggled on x xs = if on then xs ++ x ∷ [] else filter (λ item. not (item == x)) xs

-- A choice of the mode clears the scope.
unfoldable pub with_mode : String → Form → Form
with_mode mode f = record f {
  mode = mode;
  hosts = [];
  recipe_ids = [];
  capabilities =
      (if mode == "dynamic_sandbox" then "dynamic_scripts" ∷ [] else "host_scripts" ∷ []);
}
