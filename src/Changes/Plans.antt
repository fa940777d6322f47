-- ===== src/Changes/Plans.antt =====
-- The form of a plan in ui/app/changes/page.tsx, and the events of the page.
use sysadmin_mcp_assisstant.Prelude.{
  String, Bool, false, ◌||◌, not, List, [], ◌∷◌, ◌++◌, Option, none, some, map, find, filter, when,
  opt_map, or_else, ◌==◌, if◌then◌else◌,
}
use sysadmin_mcp_assisstant.Prelude.Text.{is_blank, concat, includes, replace_all}
use sysadmin_mcp_assisstant.View.{Widget, spinner, button, choice, input}
use sysadmin_mcp_assisstant.Changes.{
  Change, FilePolicy, PackagePolicy, ServicePolicy, PolicySet, Changes, package_actions,
  service_actions,
}
use sysadmin_mcp_assisstant.Changes.Stages
use sysadmin_mcp_assisstant.Changes.Stages.{open_states, stage_view}

abbrev pub action_types : List String
action_types =
    "write_managed_file" ∷ "install_package" ∷ "update_package" ∷ "enable_service"
    ∷ "disable_service" ∷ "reload_service" ∷ "restart_service" ∷ "run_backup" ∷ []

-- `sets.find((item) => item.host === host)?.… || []`
abbrev pub entries_of : {A : Type 0} → String → List (PolicySet A) → List A
entries_of host sets = or_else (opt_map (λ x. x.entries) (find (λ x. x.host == host) sets)) []

abbrev pub available_files : Changes → List FilePolicy
available_files p = entries_of p.host p.file_policies

abbrev pub available_packages : Changes → List PackagePolicy
available_packages p = entries_of p.host p.package_policies

abbrev pub selected_package : Changes → Option PackagePolicy
selected_package p = find (λ x. x.id == p.target) (available_packages p)

abbrev pub available_services : Changes → List ServicePolicy
available_services p =
    filter (λ x. includes x.actions p.action) (entries_of p.host p.service_policies)

pub data Event : Type 0 where
  appear elapse stop_editing save : Event
  type_title pick_host pick_action pick_target pick_package pick_version type_target type_value :
      String → Event
  -- whether the operator agrees, the transaction and the host
  skip : Bool → Change → String → Event
  step : Stages.Act → Change → Event

abbrev pub version_view : Option PackagePolicy → Changes → List (Widget Event)
version_view none p = []
version_view (some x) p =
    choice "Approved version" p.version false
      (("", "Policy default") ∷ map (λ v. (v, v)) x.allowed_versions) pick_version
    ∷ []

abbrev pub file_choice : Changes → List (Widget Event)
file_choice p =
    choice "Managed path ID" p.target false
      (("", "Select an allowlisted file")
        ∷ map (λ x. (x.id, concat (x.id ∷ " — " ∷ x.path ∷ []))) (available_files p))
      pick_target
    ∷ Widget.text "The API receives this ID, never a raw path."
    ∷ []

abbrev pub package_choice : Changes → List (Widget Event)
package_choice p =
    choice "Package ID" p.target false
      (("", "Select an allowlisted package")
        ∷ map
            (λ x. (x.id, concat (x.id ∷ " — " ∷ x.name ∷ (if x.held then " (held)" else "") ∷ [])))
            (available_packages p))
      pick_package
    ∷ version_view (selected_package p) p

abbrev pub service_choice : Changes → List (Widget Event)
service_choice p =
    choice "Service ID" p.target false
      (("", "Select an allowlisted service")
        ∷ map (λ x. (x.id, concat (x.id ∷ " — " ∷ x.unit ∷ []))) (available_services p))
      pick_target
    ∷ []

abbrev pub free_choice : Changes → List (Widget Event)
free_choice p = input "Policy target" p.target false type_target ∷ []

unfoldable pub target_view : Changes → List (Widget Event)
target_view p =
    if p.action == "write_managed_file"
    then file_choice p
    else if includes package_actions p.action
    then package_choice p
    else if includes service_actions p.action
    then service_choice p
    else free_choice p

-- `editingId` as a condition.
abbrev pub is_editing : Changes → Bool
is_editing p = not (is_blank (or_else p.editing_id ""))

unfoldable pub plan_view : Changes → List (Widget Event)
plan_view p =
    Widget.text (if is_editing p then "Revise typed plan" else "New typed plan")
      ∷ when (is_editing p) (
          button "Stop editing" false stop_editing
          ∷ Widget.text (
              concat (
                "Saving creates a new immutable transaction and permanently invalidates "
                ∷ "any approval on the original." ∷ []))
          ∷ [])
    ++ (input "Title" p.title false type_title
          ∷ choice "Host" p.host false (map (λ h. (h, h)) p.hosts) pick_host
          ∷ choice "Action" p.action false (map (λ a. (a, replace_all b'_' " " a)) action_types)
              pick_action
          ∷ target_view p
        ++ (when (p.action == "write_managed_file")
              (input "Proposed content" p.value false type_value ∷ [])
            ++ (when p.busy (spinner ∷ [])
                ++ (button (if is_editing p then "Save revised plan" else "Create plan")
                      (p.busy || is_blank p.host) save
                    ∷ []))))
