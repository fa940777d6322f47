-- ===== src/Fleet/Details.antt =====
-- ui/app/fleet/[host]/page.tsx: the thresholds and the history of one VM. A percentage is the text that
-- is printed; `toLocaleString` of a moment is an argument. The
-- effect runs again where the route's `host` changes.
use sysadmin_mcp_assisstant.Prelude.{
  String, Bool, false, not, List, [], ◌∷◌, ◌++◌, Option, none, some, is_empty, or_else, when,
}
use sysadmin_mcp_assisstant.Prelude.Text.{is_blank, concat, encode_uri_component}
use sysadmin_mcp_assisstant.Task.{
  message_of, Code, ok, pure, ◌>>=◌, ◌>>◌, ite, expect, await_json, attempt,
}
use sysadmin_mcp_assisstant.View.{Widget, alert, spinner, link}
use sysadmin_mcp_assisstant.Http.{World, Body, api_fetch}
use sysadmin_mcp_assisstant.Page.{set_page, store_csrf, parsed}

pub record Point : Type 0 where
  pub captured_at : String
  pub status : String
  pub cpu_percent : Option String
  pub memory_percent : Option String
  pub disk_percent : Option String
  pub message : String

pub record Thresholds : Type 0 where
  pub cpu_percent : String
  pub memory_percent : String
  pub disk_percent : String

pub record Detail : Type 0 where
  pub name : String
  pub hostname : String
  pub thresholds : Thresholds
  pub history : List Point

pub record Details : Type 0 where
  pub detail : Option Detail
  pub error : String

unfoldable pub initial : Details
initial = record { detail = none; error = "" }

pub data Data : Type 0 where
  identity : String → Data
  host_detail : Detail → Data

abbrev pub identity_of : Data → Option String
identity_of (identity token) = some token
identity_of d = none

abbrev pub detail_of : Data → Option Detail
detail_of (host_detail x) = some x
detail_of d = none

abbrev pub State : Type 0
State = World Details

abbrev pub history_path : String → String
history_path host = concat ("/api/fleet/hosts/" ∷ encode_uri_component host ∷ "?limit=100" ∷ [])

-- The effect, with the `host` of the route.
unfoldable pub mount : String → Code State (Body Data) (Unit {0})
mount host =
    attempt
      (do
        me ← api_fetch "/api/auth/me" none none
        ite (not (ok me)) (pure tt) (do
          body ← await_json me
          token ← expect (identity_of body.value)
          store_csrf token
          response ← api_fetch (history_path host) none none
          data_ ← parsed response "Host not found."
          detail ← expect (detail_of data_.value)
          set_page (λ p. record p { detail = some detail })))
      (λ reason.
        set_page (λ p. record p { error = message_of reason "Could not load host history." }))

-- `{x ?? '—'}%`
abbrev percent : String → Option String → String
percent label x = concat (label ∷ " " ∷ or_else x "—" ∷ "%" ∷ [])

abbrev points_view : {E : Type 0} → (String → String) → List Point → List (Widget E)
points_view locale [] = []
points_view locale (p ∷ ps) =
    Widget.text (locale p.captured_at)
    ∷ Widget.text p.status
    ∷ Widget.text (percent "CPU" p.cpu_percent)
    ∷ Widget.text (percent "RAM" p.memory_percent)
    ∷ Widget.text (percent "Disk" p.disk_percent)
    ∷ points_view locale ps

abbrev detail_view : {E : Type 0} → (String → String) → Option Detail → List (Widget E)
detail_view locale none = []
detail_view locale (some d) =
    Widget.text d.name
      ∷ Widget.text d.hostname
      ∷ Widget.text (percent "CPU" (some d.thresholds.cpu_percent))
      ∷ Widget.text (percent "RAM" (some d.thresholds.memory_percent))
      ∷ Widget.text (percent "Disk" (some d.thresholds.disk_percent))
      ∷ Widget.text "Health trend"
      ∷ Widget.text "Newest observation first · up to 100 snapshots"
      ∷ points_view locale d.history
    ++ when (is_empty d.history)
        (Widget.text "Run a fleet refresh to create the first snapshot." ∷ [])

abbrev loading : Option Detail → String → Bool
loading none e = is_blank e
loading (some d) e = false

unfoldable pub details_view : {E : Type 0} → (String → String) → Details → List (Widget E)
details_view locale p =
    Widget.text "Host details"
      ∷ Widget.text "Thresholds and recent observations"
      ∷ link "/fleet" "Fleet"
      ∷ when (not (is_blank p.error)) (alert p.error ∷ [])
    ++ (when (loading p.detail p.error) (spinner ∷ Widget.text "Loading history…" ∷ [])
        ++ detail_view locale p.detail)
