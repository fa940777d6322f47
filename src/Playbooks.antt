-- ===== src/Playbooks.antt =====
-- ui/app/playbooks/page.tsx: fixed diagnostic workflows that only read.
pub mod Workflows
use sysadmin_mcp_assisstant.Prelude.{
  ℕ, String, Bool, true, false, ◌&&◌, ◌||◌, not, List, [], ◌∷◌, ◌++◌, Option, none, some, map,
  first, length, is_some, opt_map, or_else, when, ◌==◌,
}
use sysadmin_mcp_assisstant.Prelude.Text.{is_blank, concat, join, or_text, decimal, replace_all}
use sysadmin_mcp_assisstant.Task.{
  message_of, Json, text, object, field, close, Code, ok, pure, Task, start, ◌>>=◌, ◌>>◌, ite,
  expect, await_json, attempt,
}
use sysadmin_mcp_assisstant.View.{Widget, alert, spinner, button, choice}
use sysadmin_mcp_assisstant.Http.{World, Body, api_fetch}
use sysadmin_mcp_assisstant.Page.{set_page, require_ok, store_csrf, parsed, guarded}

pub record Host : Type 0 where
  pub name : String
  pub hostname : String

pub record Playbook : Type 0 where
  pub id : String
  pub name : String
  pub description : String
  pub steps : List String

pub record Result : Type 0 where
  pub command : List String
  pub stdout : String
  pub stderr : String
  pub exit_status : ℕ
  pub truncated : Bool

pub record Evidence : Type 0 where
  pub step : String
  pub results : List Result

pub record Run : Type 0 where
  pub name : String
  pub host : String
  pub status : String
  pub message : String
  pub evidence : List Evidence

pub record Playbooks : Type 0 where
  pub hosts : List Host
  pub host : String
  pub playbooks : List Playbook
  pub selected : String
  pub run_ : Option Run
  pub busy : Bool
  pub error : String

unfoldable pub initial : Playbooks
initial = record {
  hosts = [];
  host = "";
  playbooks = [];
  selected = "";
  run_ = none;
  busy = false;
  error = "";
}

pub data Data : Type 0 where
  identity : String → Data
  host_rows : List Host → Data
  playbook_rows : List Playbook → Data
  finished : Run → Data

abbrev identity_of : Data → Option String
identity_of (identity token) = some token
identity_of d = none

abbrev hosts_of : Data → Option (List Host)
hosts_of (host_rows xs) = some xs
hosts_of d = none

abbrev playbooks_of : Data → Option (List Playbook)
playbooks_of (playbook_rows xs) = some xs
playbooks_of d = none

abbrev pub run_of : Data → Option Run
run_of (finished r) = some r
run_of d = none

abbrev pub State : Type 0
State = World Playbooks

abbrev Reads : Type 0 → Type 0
Reads A = Code State (Body Data) A

-- `Promise.all` is taken in the order of its members.
unfoldable pub mount : Reads (Unit {0})
mount =
    attempt
      (do
        me ← api_fetch "/api/auth/me" none none
        ite (not (ok me)) (pure tt) (do
          body ← await_json me
          token ← expect (identity_of body.value)
          store_csrf token
          host_response ← api_fetch "/api/hosts" none none
          playbook_response ← api_fetch "/api/playbooks" none none
          require_ok (ok host_response && ok playbook_response) "Could not load playbooks."
          found ← await_json host_response
          hosts ← expect (hosts_of found.value)
          offered ← await_json playbook_response
          rows ← expect (playbooks_of offered.value)
          set_page (λ p. record p {
            hosts = hosts;
            host = or_else (opt_map (λ h. h.name) (first hosts)) "";
            playbooks = rows;
            selected = or_else (opt_map (λ x. x.id) (first rows)) "";
          })))
      (λ reason. set_page (λ p. record p { error = message_of reason "Agent API is offline." }))

abbrev pub run_body : Playbooks → Json
run_body c = object (field "host" (text c.host) (field "playbook_id" (text c.selected) close))

abbrev pub blocked : Playbooks → Bool
blocked c = is_blank c.host || is_blank c.selected || c.busy

-- `execute` of the render that shows `c`.
unfoldable pub execute : Playbooks → Reads (Unit {0})
execute c = ite (blocked c) (pure tt) (do
  set_page (λ p. record p { busy = true; error = ""; run_ = none })
  guarded
      (do
        response ← api_fetch "/api/playbooks/run" (some "POST") (some (run_body c))
        data_ ← parsed response "Playbook failed."
        found ← expect (run_of data_.value)
        set_page (λ p. record p { run_ = some found }))
      (λ reason p. record p { error = message_of reason "Could not run playbook." })
      (λ p. record p { busy = false }))

pub data Act : Type 0 where
  first_render run_playbook : Act
  pick_host pick_playbook : String → Act

abbrev playbooks_view : List Playbook → List (Widget Act)
playbooks_view [] = []
playbooks_view (x ∷ xs) =
    button x.name false (pick_playbook x.id)
    ∷ Widget.text x.description
    ∷ Widget.text (concat (decimal (length x.steps) ∷ " approved steps" ∷ []))
    ∷ playbooks_view xs

abbrev results_view : List Result → List (Widget Act)
results_view [] = []
results_view (r ∷ rs) =
    Widget.text (concat ("$ " ∷ join " " r.command ∷ []))
    ∷ Widget.text (or_text r.stdout (or_text r.stderr "(no output)"))
    ∷ results_view rs

abbrev evidence_view : List Evidence → List (Widget Act)
evidence_view [] = []
evidence_view (e ∷ es) =
    Widget.text (replace_all b'_' " " e.step) ∷ results_view e.results ++ evidence_view es

unfoldable pub run_view : Option Run → List (Widget Act)
run_view none = []
run_view (some r) =
    Widget.text (concat (r.name ∷ " · " ∷ r.host ∷ []))
    ∷ Widget.text r.message
    ∷ evidence_view r.evidence

unfoldable pub playbooks_page_view : Playbooks → List (Widget Act)
playbooks_page_view p =
    Widget.text "Investigation playbooks"
      ∷ Widget.text "Fixed, reviewable, read-only diagnostic workflows"
      ∷ choice "Target host" p.host false (map (λ h. (h.name, h.name)) p.hosts) pick_host
      ∷ playbooks_view p.playbooks
    ++ (when p.busy (spinner ∷ [])
        ++ (button "Run playbook" (p.busy || is_blank p.selected || is_blank p.host) run_playbook
              ∷ Widget.text "Evidence timeline"
              ∷ Widget.text "Raw command evidence in execution order"
              ∷ Widget.text "Read only"
              ∷ when (not (is_blank p.error)) (alert p.error ∷ [])
            ++ (when (not (is_some p.run_) && not p.busy && is_blank p.error)
                  (Widget.text "Choose a playbook and run it against an approved host." ∷ [])
                ++ (when p.busy (spinner ∷ Widget.text "Running approved diagnostic steps…" ∷ [])
                    ++ run_view p.run_))))

unfoldable pub handle : Act → Playbooks → Task State (Body Data)
handle first_render p = start mount
handle run_playbook p = start (execute p)
handle (pick_host x) p = start (set_page (λ (s : Playbooks). record s { host = x }))
handle (pick_playbook x) p = start (set_page (λ (s : Playbooks). record s { selected = x }))
