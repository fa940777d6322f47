-- ===== src/Scripts/Screen.antt =====
-- What `ScriptPage` of ui/app/dynamic/page.tsx shows, and its handlers. `Number` of a text is
-- `to_number`; the widgets of `MCPExecutionConnection` are the argument `connection`.
use sysadmin_mcp_assisstant.Prelude.{
  ℕ, String, Bool, true, false, ◌||◌, not, List, [], ◌∷◌, ◌++◌, Option, none, some, map, is_empty,
  when, or_else, ◌==◌, if◌then◌else◌,
}
use sysadmin_mcp_assisstant.Prelude.Text.{is_blank, concat, trim, decimal, or_text, replace_all}
use sysadmin_mcp_assisstant.Task.{Task, start}
use sysadmin_mcp_assisstant.View.{Widget, text, alert, status, button, choice, input}
use sysadmin_mcp_assisstant.Http.{Body}
use sysadmin_mcp_assisstant.Page.{set_page}
use sysadmin_mcp_assisstant.Scripts.{
  Output, Job, Scripts, Data, State, Kind, generate, prepare, run, mount, poll_effect, poll, act,
}

pub data Act : Type 0 where
  first_render job_changed : Act
  -- a tick of the run of that number, for that job
  timer : ℕ → String → Act
  ask : Kind → Act
  pick_host pick_provider type_task type_script type_verifier type_password : String → Act
  type_seconds : ℕ → Act

unfoldable pub task_view : (String → ℕ) → Scripts → List (Widget Act)
task_view to_number p =
    choice "VM" p.host p.busy
      (when (is_empty p.hosts) (("", "No eligible lab VM") ∷ [])
        ++ map (λ h. (h.name, h.name)) p.hosts)
      pick_host
    ∷ choice "Generator" p.provider p.busy
        (("openai", "ChatGPT") ∷ ("gemini", "Gemini") ∷ ("local", "Local LLM") ∷ []) pick_provider
    ∷ input "Total time limit (seconds)" (decimal p.seconds) p.busy
        (λ x. type_seconds (to_number x))
    ∷ input "Task" p.task p.busy type_task
    ∷ button "Generate draft" (p.busy || is_blank p.host || is_blank (trim p.task)) (ask generate)
    ∷ []

unfoldable pub scripts_view : Scripts → List (Widget Act)
scripts_view p =
    input "Python script" p.script p.busy type_script
    ∷ input "Independent verifier" p.verification p.busy type_verifier
    ∷ text (
        concat (
          "The verifier runs separately against task outputs and must print JSON checks with "
          ∷ "name and passed fields. Review whether its assertions actually establish your intended "
          ∷ "result. Syntax checks alone do not make code safe." ∷ []))
    ∷ button "Validate and prepare review"
        (p.busy || is_blank p.host || is_blank p.script || is_blank p.verification) (ask prepare)
    ∷ []

unfoldable pub output_view : String → Option Output → List (Widget Act)
output_view stage none = []
output_view stage (some o) =
    text (
      concat (
        stage
        ∷ " · exit "
        ∷ decimal o.exit_status
        ∷ (if o.truncated then " · output limit reached" else "")
        ∷ []))
    ∷ text (
        concat (
          or_text o.stdout "(no stdout)"
          ∷ (if is_blank o.stderr then "" else concat ("\nSTDERR:\n" ∷ o.stderr ∷ []))
          ∷ []))
    ∷ []

unfoldable pub job_view : Scripts → Job → List (Widget Act)
unfolding output_view
job_view p j =
    text (concat (j.title ∷ " · " ∷ j.host ∷ " · Job: " ∷ replace_all b'_' " " j.state ∷ []))
      ∷ text (concat ("Reviewed script digest: " ∷ j.digest ∷ []))
      ∷ when (j.state == "prepared") (
          input "Administrator password" p.password p.busy type_password
          ∷ button "Approve and run once" (p.busy || is_blank p.password) (ask run)
          ∷ [])
    ++ (when (not (is_blank (or_else j.message ""))) (text (or_else j.message "") ∷ [])
        ++ (output_view "execution" j.execution ++ output_view "verification" j.verified))

unfoldable pub shown_job : Scripts → Option Job → List (Widget Act)
shown_job p none = []
shown_job p (some j) = job_view p j

abbrev guidance : Bool → String
guidance true = concat (
    "Arm Guided or Autonomous Lab with Host scripts. These scripts run on the selected VM as its "
    ∷ "SSH account; sudo requires separately provisioned noninteractive permission. Every host job "
    ∷ "requires your approval here, including jobs prepared in Autonomous Lab mode. After approval, "
    ∷ "installation and verification run automatically. The host helper must be installed. No "
    ∷ "automatic rollback; changes can persist after failure or stop." ∷ [])
guidance false = concat (
    "Arm Dynamic sandbox using the Mode control first. Scripts run in a rootless container: no "
    ∷ "network, no host mounts, no sudo, and only an ephemeral /work directory. This cannot install "
    ∷ "software or modify services on the VM. The VM must have the sandbox helper and approved image "
    ∷ "installed." ∷ [])

unfoldable pub script_page_view : (String → ℕ) → List (Widget Act) → Scripts → List (Widget Act)
unfolding task_view scripts_view shown_job
script_page_view to_number connection p =
    text (if p.host_execution then "Host scripts" else "Dynamic scripts")
      ∷ text "Generate · Review · Run · Verify"
      ∷ text (
          if p.host_execution
          then "Guided and Autonomous Lab · real host execution"
          else "Isolated Python execution on a lab VM")
      ∷ text (guidance p.host_execution)
      ∷ when (not (is_blank p.error)) (alert p.error ∷ [])
    ++ (when p.host_execution connection
        ++ (task_view to_number p
            ++ (scripts_view p
                ++ (shown_job p p.job
                    ++ when p.busy (
                        status (
                          concat (
                            "Working… execution may take up to the selected time limit plus connection "
                            ∷ "and cleanup time." ∷ []))
                        ∷ [])))))

unfoldable pub handle : Act → Scripts → Task State (Body Data)
handle first_render p = start (mount p)
handle job_changed p = start poll_effect
handle (timer n id) p = start (poll n id p)
handle (ask kind) p = start (act kind p)
handle (pick_host x) p = start (set_page (λ (s : Scripts). record s { host = x; job = none }))
handle (pick_provider x) p = start (set_page (λ (s : Scripts). record s { provider = x }))
handle (type_task x) p = start (set_page (λ (s : Scripts). record s { task = x }))
handle (type_script x) p = start (set_page (λ (s : Scripts). record s { script = x; job = none }))
handle (type_verifier x) p =
    start (set_page (λ (s : Scripts). record s { verification = x; job = none }))
handle (type_password x) p = start (set_page (λ (s : Scripts). record s { password = x }))
handle (type_seconds x) p = start (set_page (λ (s : Scripts). record s { seconds = x; job = none }))
