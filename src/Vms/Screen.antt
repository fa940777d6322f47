-- ===== src/Vms/Screen.antt =====
-- What `VmsPage` of ui/app/vms/page.tsx shows, and the handler of each thing the user can do there.
use sysadmin_mcp_assisstant.Prelude.{
  String, Bool, true, false, List, [], ◌∷◌, ◌++◌, none, some, is_empty, length, when, eqb, ◌==◌,
  if◌then◌else◌, not,
}
use sysadmin_mcp_assisstant.Prelude.Text.{is_blank, concat, replace_first, decimal}
use sysadmin_mcp_assisstant.Task.{Json, Task, start}
use sysadmin_mcp_assisstant.View.{Widget, text, alert, spinner, button, choice, input}
use sysadmin_mcp_assisstant.Http.{Body}
use sysadmin_mcp_assisstant.Page.{set_page}
use sysadmin_mcp_assisstant.Vms.{
  Host, Pending, Classification, Vms, Data, State, Key, key_name, key_hostname, key_port,
  key_username, key_password, key_logs, key_jobs, key_environment, put, mount, discover, decide,
  remove, classify,
}

pub data Act : Type 0 where
  first_render fetch_key save_class cancel_class : Act
  answer_key : Bool → Act
  edit : Key → String → Act
  -- the VM, and what the browser's `confirm` returns
  drop_vm : Host → Bool → Act
  open_class : Host → Act
  pick_class : Classification → String → Act
  type_password : Classification → String → Act

abbrev environments : List (String × String)
environments =
    ("production", "Production")
    ∷ ("staging", "Staging")
    ∷ ("development", "Development")
    ∷ ("disposable_lab", "Disposable lab")
    ∷ []

-- A count and its noun, as the page writes them.
abbrev counted : {A : Type 0} → List A → String → String → String
counted xs one many =
    concat (decimal (length xs) ∷ " " ∷ (if eqb (length xs) 1 then one else many) ∷ [])

-- The button `Remove` asks `confirm`: it stands here once for each of the two answers.
unfoldable pub host_view : Vms → Host → List (Widget Act)
host_view v h =
    text h.name
      ∷ text (
          concat (
            h.hostname
            ∷ " · "
            ∷ counted h.allowed_logs "approved log path" "approved log paths"
            ∷ " · "
            ∷ counted h.backup_jobs "backup job" "backup jobs"
            ∷ []))
      ∷ button (replace_first b'_' " " h.environment) false (open_class h)
      ∷ when (v.removing == h.name) (spinner ∷ [])
    ++ button "Remove" (v.removing == h.name) (drop_vm h true)
      ∷ button "Remove" (v.removing == h.name) (drop_vm h false)
      ∷ []

unfoldable pub hosts_view : Vms → List Host → List (Widget Act)
unfolding host_view
hosts_view v [] = []
hosts_view v (h ∷ hs) = host_view v h ++ hosts_view v hs

unfoldable pub inventory_view : Vms → List (Widget Act)
unfolding hosts_view
inventory_view v =
    text "Managed VMs"
      ∷ text (counted v.hosts "approved target" "approved targets")
      ∷ when (not (is_blank v.notice)) (text v.notice ∷ [])
    ++ when (not (is_blank v.error)) (alert v.error ∷ [])
    ++ hosts_view v v.hosts
    ++ when (is_empty v.hosts)
        (text "No managed VMs yet." ∷ text "Use the enrollment form to add the first target." ∷ [])

unfoldable pub key_view : Vms → Pending → List (Widget Act)
key_view v p =
    text "Verify host key"
      ∷ text "Target"
      ∷ text (concat (p.host ∷ ":" ∷ decimal p.port ∷ []))
      ∷ text "Algorithm"
      ∷ text p.algorithm
      ∷ text "SHA-256 fingerprint"
      ∷ text p.fingerprint
      ∷ text "Compare this fingerprint with a trusted source before accepting it."
      ∷ button "No, cancel" v.busy (answer_key false)
      ∷ when v.busy (spinner ∷ [])
    ++ button "Yes, trust" v.busy (answer_key true) ∷ []

unfoldable pub form_view : Vms → List (Widget Act)
form_view v =
    input "Display name" v.form.name false (edit key_name)
      ∷ input "IP address or hostname" v.form.hostname false (edit key_hostname)
      ∷ input "SSH port" v.form.port false (edit key_port)
      ∷ input "SSH username" v.form.username false (edit key_username)
      ∷ input "SSH password" v.form.password false (edit key_password)
      ∷ choice "Environment classification" v.form.environment false environments
          (edit key_environment)
      ∷ text (
          concat (
            "Encrypted locally before storage. It is never written to host configuration, "
            ∷ "browser storage, logs, or conversation history." ∷ []))
      ∷ input "Approved backup job IDs — one per line" v.form.backup_jobs false (edit key_jobs)
      ∷ input "Approved log paths — one per line" v.form.allowed_logs false (edit key_logs)
      ∷ when v.busy (spinner ∷ [])
    ++ button "Connect and fetch key" v.busy fetch_key ∷ []

unfoldable pub enrol_view : Vms → List (Widget Act)
unfolding key_view form_view
enrol_view v =
    text "Add a VM"
    ∷ text (
        concat (
          "Evesdropctl reads the SSH host key first. "
          ∷ "Nothing is trusted until you approve the fingerprint." ∷ []))
    ∷ elim v.pending [ none ↦ form_view v | some p ↦ key_view v p ]

unfoldable pub classification_view : Vms → List (Widget Act)
classification_view v = elim v.classification [
  | none ↦ []
  | some k ↦
      text (concat ("Classify " ∷ k.host.name ∷ []))
        ∷ text (
            concat (
              "Autonomous Lab is denied unless this host is development or disposable lab. "
              ∷ "Choose based on the VM's actual purpose." ∷ []))
        ∷ choice "Environment" k.environment false environments (pick_class k)
        ∷ input "Administrator password" k.password false (type_password k)
        ∷ button "Cancel" v.busy cancel_class
        ∷ when v.busy (spinner ∷ [])
      ++ button "Save classification" v.busy save_class ∷ []
]

unfoldable pub vms_view : Vms → List (Widget Act)
unfolding inventory_view enrol_view classification_view
vms_view v =
    text "VM management" ∷ text "Enroll and remove approved SSH targets" ∷ inventory_view v
    ++ enrol_view v
    ++ classification_view v

unfoldable pub handle : (String → Json) → Act → Vms → Task State (Body Data)
handle to_number first_render v = start mount
handle to_number fetch_key v = start (discover to_number v)
handle to_number (answer_key trust) v = start (decide trust v)
handle to_number (edit key x) v =
    start (set_page (λ (s : Vms). record s { form = put key x s.form }))
handle to_number (drop_vm h agreed) v = start (remove h agreed)
handle to_number (open_class h) v = start (
    set_page (λ (s : Vms). record s {
      classification = some (record { host = h; environment = h.environment; password = "" });
    }))
handle to_number (pick_class k x) v =
    start
      (set_page (λ (s : Vms). record s { classification = some (record k { environment = x }) }))
handle to_number (type_password k x) v =
    start (set_page (λ (s : Vms). record s { classification = some (record k { password = x }) }))
handle to_number cancel_class v = start (set_page (λ (s : Vms). record s { classification = none }))
handle to_number save_class v = start (classify v)
