-- ===== src/Software/Screen.antt =====
-- What ui/app/software/page.tsx shows, and its handlers.
use sysadmin_mcp_assisstant.Prelude.{
  String, Bool, ◌&&◌, ◌||◌, not, List, [], ◌∷◌, ◌++◌, Option, none, some, map, is_empty, when, find,
  opt_map, or_else, ◌==◌,
}
use sysadmin_mcp_assisstant.Prelude.Text.{is_blank, concat, includes, replace_all}
use sysadmin_mcp_assisstant.Task.{Task, start}
use sysadmin_mcp_assisstant.View.{Widget, text, alert, spinner, button, choice, input}
use sysadmin_mcp_assisstant.Http.{Body}
use sysadmin_mcp_assisstant.Page.{set_page}
use sysadmin_mcp_assisstant.Software.{
  Plan, Software, Data, State, mount, unmount, preview, prepare_install,
}

pub data Act : Type 0 where
  appear leave ask_preview ask_install : Act
  pick_host pick_product pick_deployment pick_operation type_version : String → Act

-- `operation === 'install' && deployment === 'native' && ['nginx', 'tomcat'].includes(product)`
abbrev pub installable : Software → Bool
installable p =
    p.operation == "install"
    && p.deployment == "native"
    && includes ("nginx" ∷ "tomcat" ∷ []) p.product

unfoldable pub choices_view : Software → List (Widget Act)
choices_view p =
    choice "VM" p.host p.busy
      (when (is_empty p.hosts) (("", "Add a development or disposable-lab VM") ∷ [])
        ++ map (λ h. (h.name, h.name)) p.hosts)
      pick_host
    ∷ choice "Software" p.product p.busy (map (λ x. (x.id, x.label)) p.profiles) pick_product
    ∷ choice "Deployment" p.deployment p.busy
        (("native", "Native systemd service") ∷ ("podman", "Podman container") ∷ []) pick_deployment
    ∷ choice "Operation" p.operation p.busy
        (("install", "Fresh install") ∷ ("upgrade", "Upgrade and preserve data") ∷ [])
        pick_operation
    ∷ input "Exact target version" p.version p.busy type_version
    ∷ []

-- The buttons and the notes below the choices.
unfoldable pub order_view : Software → List (Widget Act)
order_view p =
    when p.busy (spinner ∷ [])
    ++ (button "Preview workflow"
            (p.busy || is_blank p.host || is_blank p.version || is_empty p.profiles) ask_preview
          ∷ when (installable p) (
              button "Prepare installation for approval"
                (p.busy || is_blank p.host || is_blank p.version) ask_install
              ∷ text (
                  concat (
                    "Installs the exact upstream version available from baseos/appstream, "
                    ∷ "including dependency changes, and enables the service with packaged settings. "
                    ∷ "Existing installations are refused. No firewall changes or application deployment. "
                    ∷ "Failed jobs may leave partial changes; inspect the evidence before retrying."
                    ∷ []))
              ∷ [])
        ++ (text (
              or_else (opt_map (λ x. x.upgrade_notes) (find (λ x. x.id == p.product) p.profiles))
                "")
            ∷ []))

unfoldable pub plan_view : Option Plan → List (Widget Act)
plan_view none = []
plan_view (some q) =
    text (concat (q.product ∷ " " ∷ q.operation ∷ " · " ∷ q.host ∷ " · " ∷ q.target_version ∷ []))
    ∷ text "Proposed steps only; no host inspection or installation has run."
    ∷ map (λ x. text (replace_all b'_' " " x)) q.steps

unfoldable pub software_view : Software → List (Widget Act)
software_view p =
    text "Software management"
      ∷ text "Rocky Linux 9 · Native services and Podman"
      ∷ text "Data stays with the application"
      ∷ text (
          concat (
            "Upgrades require a consistent backup, compatibility checks, and verification of "
            ∷ "existing data. Cross-release migrations and native-to-container conversions are separate "
            ∷ "operations." ∷ []))
      ∷ text (
          concat (
            "Nginx and Tomcat fresh native installations are available with your approval. "
            ∷ "Arm Host scripts for the VM, prepare an installation, and review it before running. The VM "
            ∷ "needs the updated host helper and noninteractive sudo permissions. Upgrades, containers, and "
            ∷ "other products remain planning-only." ∷ []))
      ∷ when (not (is_blank p.error)) (alert p.error ∷ [])
    ++ (choices_view p ++ (order_view p ++ plan_view p.plan))

unfoldable pub handle : Act → Software → Task State (Body Data)
handle appear p = start mount
handle leave p = start unmount
handle ask_preview p = start (preview p)
handle ask_install p = start (prepare_install p)
handle (pick_host x) p = start (set_page (λ (s : Software). record s { host = x; plan = none }))
handle (pick_product x) p =
    start (set_page (λ (s : Software). record s { product = x; version = ""; plan = none }))
handle (pick_deployment x) p =
    start (set_page (λ (s : Software). record s { deployment = x; plan = none }))
handle (pick_operation x) p =
    start (set_page (λ (s : Software). record s { operation = x; plan = none }))
handle (type_version x) p =
    start (set_page (λ (s : Software). record s { version = x; plan = none }))
