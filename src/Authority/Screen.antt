-- ===== src/Authority/Screen.antt =====
-- What `AuthorityControl` of ui/components/authority-control.tsx shows, and its handlers. `Number`
-- of a text is `to_number`, and the time of a date's text, in milliseconds, `time_of`.
use sysadmin_mcp_assisstant.Prelude.{
  ℕ, ◌+◌, ◌-◌, ◌/◌, String, Bool, true, false, ◌&&◌, ◌||◌, not, List, [], ◌∷◌, ◌++◌, Option, none,
  some, map, filter, is_empty, when, or_else, ◌==◌, if◌then◌else◌,
}
use sysadmin_mcp_assisstant.Prelude.Text.{is_blank, concat, join, decimal, includes}
use sysadmin_mcp_assisstant.Task.{Task, start}
use sysadmin_mcp_assisstant.View.{Widget, text, alert, spinner, button, choice, input, check}
use sysadmin_mcp_assisstant.Http.{Body}
use sysadmin_mcp_assisstant.Page.{set_page}
use sysadmin_mcp_assisstant.Authority.{
  Authority, Host, Form, Control, Data, State, refresh, tick, arm, transition, change_scope,
  selectable_hosts, toggled, with_mode,
}

pub data Act : Type 0 where
  first_render open_form close_form submit : Act
  timer : ℕ → Act
  -- the action, and what `confirm` returns
  move : String → Bool → Act
  rescope : Authority → Act
  pick_mode type_password : String → Act
  pick_duration type_budget type_concurrency : ℕ → Act
  tick_host tick_capability tick_recipe : String → Bool → Act

-- `labels[key]`
abbrev label_of : String → List (String × String) → Option String
label_of key [] = none
label_of key ((k, v) ∷ rest) = if k == key then some v else label_of key rest

abbrev labels : List (String × String)
labels =
    ("observe", "Observe")
    ∷ ("guided", "Guided Lab")
    ∷ ("autonomous_lab", "Autonomous Lab")
    ∷ ("managed_files", "Managed files")
    ∷ ("packages", "Packages")
    ∷ ("services", "Services")
    ∷ ("host_scripts", "Host scripts (real VM changes)")
    ∷ ("backups", "Backups")
    ∷ ("dynamic_sandbox", "Dynamic sandbox")
    ∷ ("dynamic_scripts", "Isolated Python scripts")
    ∷ []

-- `Math.max(0, Math.ceil((expires - clock) / 60_000))`
unfoldable pub remaining : (String → ℕ) → Authority → ℕ → ℕ
remaining time_of a clock = elim a.expires_at [
  | none ↦ 0
  | some e ↦ (time_of e - clock + 59999) / 60000
]

abbrev move_button : Control → String → String → Widget Act
move_button c label action = button label c.busy (move action true)

unfoldable pub status_view : (String → ℕ) → Control → Authority → List (Widget Act)
unfolding remaining
status_view time_of c a =
    if a.mode == "observe"
    then button "Mode: Observe" false open_form ∷ []
    else text (concat (or_else (label_of a.mode labels) "" ∷ " · " ∷ a.status ∷ []))
      ∷ text (
          concat (
            "VMs: "
            ∷ join ", " a.hosts
            ∷ " · "
            ∷ decimal (remaining time_of a c.clock)
            ∷ " min remaining"
            ∷ []))
      ∷ text (join ", " (map (λ k. or_else (label_of k labels) k) a.capabilities))
      ∷ button "Change scope" c.busy (rescope a)
      ∷ (if a.status == "active"
          then move_button c "Pause" "pause"
          else move_button c "Resume" "resume")
      ∷ move_button c "Disable" "stop"
      ∷ move_button c "Emergency stop" "emergency-stop"
      ∷ button "Emergency stop" c.busy (move "emergency-stop" false)
      ∷ []

abbrev host_checks : Form → List Host → List (Widget Act)
host_checks f [] = []
host_checks f (h ∷ hs) =
    check h.name (includes f.hosts h.name) (tick_host h.name)
    ∷ text h.environment
    ∷ host_checks f hs

abbrev checks :
    List String → List String → (String → String) → (String → Bool → Act) → List (Widget Act)
checks ticked [] label act = []
checks ticked (x ∷ xs) label act =
    check (label x) (includes ticked x) (act x) ∷ checks ticked xs label act

-- The submit button's `disabled`.
unfoldable pub arm_disabled : Control → Bool
arm_disabled c =
    c.busy
    || is_empty c.form.hosts
    || is_empty c.form.capabilities
    || (c.form.mode == "autonomous_lab"
        && is_empty c.form.recipe_ids
        && not (includes c.form.capabilities "host_scripts"))

abbrev modes : List (String × String)
modes =
    ("guided", "Guided Lab")
    ∷ ("autonomous_lab", "Autonomous Lab")
    ∷ ("dynamic_sandbox", "Dynamic sandbox")
    ∷ []

abbrev durations : List (String × String)
durations = ("15", "15 minutes") ∷ ("30", "30 minutes") ∷ ("60", "60 minutes") ∷ []

unfoldable pub arm_view : (String → ℕ) → Control → Authority → List (Widget Act)
unfolding selectable_hosts arm_disabled
arm_view to_number c a =
    let f = c.form in
    text "Arm supervised authority"
      ∷ text (
          concat (
            "Select the hosts, capabilities, and lifetime. Dynamic sandbox runs reviewed Python "
            ∷ "in isolated containers with no VM filesystem or network access." ∷ []))
      ∷ when (not (is_blank c.error)) (alert c.error ∷ [])
    ++ choice "Mode" f.mode false modes pick_mode
      ∷ choice "Duration" (decimal f.duration_minutes) false durations
          (λ x. pick_duration (to_number x))
      ∷ input "Action budget" (decimal f.action_budget) false (λ x. type_budget (to_number x))
      ∷ input "Concurrency" (decimal f.concurrency) false (λ x. type_concurrency (to_number x))
      ∷ text "Target hosts"
      ∷ host_checks f (selectable_hosts c)
    ++ when (is_empty (selectable_hosts c))
        (text "No hosts are eligible. Classify a VM as development or disposable lab first." ∷ [])
    ++ text "Capability scope"
      ∷ checks f.capabilities
          (filter
            (λ k.
              if f.mode == "dynamic_sandbox"
              then k == "dynamic_scripts"
              else not (k == "dynamic_scripts"))
            (or_else a.available_capabilities []))
          (λ k. or_else (label_of k labels) "") tick_capability
    ++ when (f.mode == "autonomous_lab") (
        text "Autonomous recipe scope"
        ∷ checks f.recipe_ids (or_else a.available_recipe_ids []) (λ r. r) tick_recipe)
    ++ text (
        concat (
          "Host scripts run on the real VM with its SSH account permissions. "
          ∷ "Both Guided and Autonomous Lab require your review and approval for every host script. "
          ∷ "Approved jobs execute and verify automatically within this host scope and budget. "
          ∷ "Existing recipe workflows remain planning-only. Stop does not undo completed changes."
          ∷ []))
      ∷ input "Administrator password" f.password false type_password
      ∷ text (
          concat (
            "Observe remains the default after logout, expiry, emergency stop, "
            ∷ "or backend restart." ∷ []))
      ∷ button "Cancel" c.busy close_form
      ∷ when c.busy (spinner ∷ [])
    ++ button "Arm mode" (arm_disabled c) submit ∷ []

unfoldable pub authority_view : (String → ℕ) → (String → ℕ) → Control → List (Widget Act)
unfolding status_view arm_view
authority_view to_number time_of c = elim c.authority [
  | none ↦ []
  | some a ↦ status_view time_of c a ++ when c.is_open (arm_view to_number c a)
]

abbrev edit : (Form → Form) → Task State (Body Data)
edit f = start (set_page (λ (s : Control). record s { form = f s.form }))

-- An input's change starts from the form that the render showed.
unfoldable pub handle : Act → Control → Task State (Body Data)
handle first_render c = start refresh
handle (timer now) c = start (tick now c)
handle open_form c = start (set_page (λ (s : Control). record s { is_open = true }))
handle close_form c = start (set_page (λ (s : Control). record s { is_open = false; error = "" }))
handle submit c = start (arm c)
handle (move action agreed) c = transition action agreed (λ _. Task.done) (λ _. Task.done)
handle (rescope a) c = start (change_scope a)
handle (pick_mode m) c = edit (λ _. with_mode m c.form)
handle (pick_duration n) c = edit (λ _. record c.form { duration_minutes = n })
handle (type_budget n) c = edit (λ _. record c.form { action_budget = n })
handle (type_concurrency n) c = edit (λ _. record c.form { concurrency = n })
handle (tick_host x on) c = edit (λ _. record c.form { hosts = toggled on x c.form.hosts })
handle (tick_capability x on) c =
    edit (λ _. record c.form { capabilities = toggled on x c.form.capabilities })
handle (tick_recipe x on) c =
    edit (λ _. record c.form { recipe_ids = toggled on x c.form.recipe_ids })
handle (type_password x) c = edit (λ _. record c.form { password = x })
