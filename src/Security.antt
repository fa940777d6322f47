-- ===== src/Security.antt =====
-- ui/app/security/page.tsx: the security posture of a VM.
pub mod Checks
use sysadmin_mcp_assisstant.Prelude.{
  ℕ, String, Bool, true, false, ◌||◌, not, List, [], ◌∷◌, ◌++◌, Option, none, some, map, first,
  opt_map, or_else, when, ◌≡◌, refl, ◌⊎◌, inl, inr,
}
use sysadmin_mcp_assisstant.Prelude.Text.{is_blank, concat, join, or_text}
use sysadmin_mcp_assisstant.Task.{
  message_of, Json, text, object, field, close, Code, ok, pure, Task, start, drive, done, ◌>>=◌,
  ◌>>◌, ite, expect, await_json, attempt,
}
use sysadmin_mcp_assisstant.View.{Widget, alert, spinner, button, choice}
use sysadmin_mcp_assisstant.Http.{World, Body, api_fetch}
use sysadmin_mcp_assisstant.Page.{set_page, require_ok, store_csrf, parsed, guarded}

pub record Host : Type 0 where
  pub name : String
  pub hostname : String

pub record Finding : Type 0 where
  pub title : String
  pub severity : String
  pub summary : String

pub record Result : Type 0 where
  pub command : List String
  pub stdout : String
  pub stderr : String

pub record Evidence : Type 0 where
  pub check : String
  pub results : List Result

pub record Report : Type 0 where
  pub host : String
  pub status : String
  pub findings : List Finding
  pub evidence : List Evidence
  pub limitations : List String

pub record Security : Type 0 where
  pub hosts : List Host
  pub host : String
  pub report : Option Report
  pub busy : Bool
  pub error : String

unfoldable pub initial : Security
initial = record { hosts = []; host = ""; report = none; busy = false; error = "" }

pub data Data : Type 0 where
  identity : String → Data
  host_rows : List Host → Data
  posture : Report → Data

abbrev identity_of : Data → Option String
identity_of (identity token) = some token
identity_of d = none

abbrev hosts_of : Data → Option (List Host)
hosts_of (host_rows xs) = some xs
hosts_of d = none

abbrev pub report_of : Data → Option Report
report_of (posture r) = some r
report_of d = none

abbrev pub State : Type 0
State = World Security

abbrev Reads : Type 0 → Type 0
Reads A = Code State (Body Data) A

unfoldable pub mount : Reads (Unit {0})
mount =
    attempt
      (do
        me ← api_fetch "/api/auth/me" none none
        ite (not (ok me)) (pure tt) (do
          body ← await_json me
          token ← expect (identity_of body.value)
          store_csrf token
          response ← api_fetch "/api/hosts" none none
          require_ok (ok response) "Could not load approved hosts."
          found ← await_json response
          rows ← expect (hosts_of found.value)
          set_page (λ p. record p {
            hosts = rows;
            host = or_else (opt_map (λ h. h.name) (first rows)) "";
          })))
      (λ reason. set_page (λ p. record p { error = message_of reason "Agent API is offline." }))

abbrev pub inspect_body : Security → Json
inspect_body c = object (field "host" (text c.host) close)

-- `inspect` of the render that shows `c`.
unfoldable pub inspect : Security → Reads (Unit {0})
inspect c = ite (is_blank c.host || c.busy) (pure tt) (do
  set_page (λ p. record p { busy = true; error = ""; report = none })
  guarded
      (do
        response ← api_fetch "/api/security/posture" (some "POST") (some (inspect_body c))
        data_ ← parsed response "Posture check failed."
        found ← expect (report_of data_.value)
        set_page (λ p. record p { report = some found }))
      (λ reason p. record p { error = message_of reason "Could not run posture check." })
      (λ p. record p { busy = false }))

pub data Act : Type 0 where
  first_render check_posture : Act
  pick_host : String → Act

abbrev results_view : List Result → List (Widget Act)
results_view [] = []
results_view (r ∷ rs) =
    Widget.text (concat ("$ " ∷ join " " r.command ∷ []))
    ∷ Widget.text (or_text r.stdout (or_text r.stderr "(no output)"))
    ∷ results_view rs

abbrev evidence_view : List Evidence → List (Widget Act)
evidence_view [] = []
evidence_view (e ∷ es) = Widget.text e.check ∷ results_view e.results ++ evidence_view es

abbrev findings_view : List Finding → List (Widget Act)
findings_view [] = []
findings_view (f ∷ fs) =
    Widget.text f.title ∷ Widget.text f.severity ∷ Widget.text f.summary ∷ findings_view fs

unfoldable pub report_view : Option Report → List (Widget Act)
report_view none = []
report_view (some r) =
    Widget.text r.host ∷ Widget.text r.status ∷ findings_view r.findings
    ++ (map (λ x. Widget.text (concat ("Limitation: " ∷ x ∷ []))) r.limitations
        ++ Widget.text "Raw evidence" ∷ evidence_view r.evidence)

unfoldable pub security_view : Security → List (Widget Act)
security_view p =
    Widget.text "Security posture"
      ∷ Widget.text "Deterministic checks with bounded raw evidence"
      ∷ choice "VM" p.host false (map (λ h. (h.name, h.name)) p.hosts) pick_host
      ∷ when p.busy (spinner ∷ [])
    ++ (button "Run posture check" (p.busy || is_blank p.host) check_posture
          ∷ Widget.text "No remediation or arbitrary scanning is available."
          ∷ when (not (is_blank p.error)) (alert p.error ∷ [])
        ++ (when p.busy (spinner ∷ Widget.text "Inspecting approved evidence sources…" ∷ [])
            ++ report_view p.report))

unfoldable pub handle : Act → Security → Task State (Body Data)
handle first_render p = start mount
handle check_posture p = start (inspect p)
handle (pick_host x) p = start (set_page (λ (s : Security). record s { host = x }))
