-- ===== src/Fleet.antt =====
-- ui/app/fleet/page.tsx: the health of all VMs. A percentage is the text that is printed; `toLowerCase`
-- is an argument.
pub mod Details
pub mod Loads
use sysadmin_mcp_assisstant.Prelude.{
  ℕ, String, Bool, true, false, ◌&&◌, ◌||◌, not, List, [], ◌∷◌, ◌++◌, Option, none, some, filter,
  is_empty, length, or_else, when, ◌==◌, if◌then◌else◌,
}
use sysadmin_mcp_assisstant.Prelude.Text.{is_blank, concat, contains, decimal, encode_uri_component}
use sysadmin_mcp_assisstant.Task.{
  message_of, Code, ok, pure, Task, start, ◌>>=◌, ◌>>◌, ite, expect, await_json, attempt,
}
use sysadmin_mcp_assisstant.View.{Widget, alert, spinner, button, choice, input, link}
use sysadmin_mcp_assisstant.Http.{World, Body, api_fetch}
use sysadmin_mcp_assisstant.Page.{set_page, require_ok, store_csrf, parsed, guarded}

-- `State` of the source.
pub data Health : Type 0 where
  healthy warning offline : Health

abbrev pub name_of : Health → String
name_of healthy = "healthy"
name_of warning = "warning"
name_of offline = "offline"

pub record Node : Type 0 where
  pub name : String
  pub hostname : String
  pub status : Health
  pub cpu_percent : Option String
  pub memory_percent : Option String
  pub disk_percent : Option String
  pub message : String

pub record Fleet : Type 0 where
  pub nodes : List Node
  pub query : String
  pub filter_ : String
  pub loading : Bool
  pub error : String

unfoldable pub initial : Fleet
initial = record { nodes = []; query = ""; filter_ = "all"; loading = true; error = "" }

pub data Data : Type 0 where
  identity : String → Data
  node_rows : List Node → Data

abbrev identity_of : Data → Option String
identity_of (identity token) = some token
identity_of d = none

abbrev nodes_of : Data → Option (List Node)
nodes_of (node_rows xs) = some xs
nodes_of d = none

abbrev pub State : Type 0
State = World Fleet

abbrev Reads : Type 0 → Type 0
Reads A = Code State (Body Data) A

unfoldable pub refresh : Reads (Unit {0})
refresh = do
  set_page (λ p. record p { loading = true; error = "" })
  guarded
      (do
        me ← api_fetch "/api/auth/me" none none
        ite (not (ok me)) (pure tt) (do
          body ← await_json me
          token ← expect (identity_of body.value)
          store_csrf token
          response ← api_fetch "/api/fleet/health" none none
          require_ok (ok response) "Fleet health request failed."
          found ← await_json response
          nodes ← expect (nodes_of found.value)
          set_page (λ p. record p { nodes = nodes })))
      (λ reason p. record p { error = message_of reason "Could not reach the agent API." })
      (λ p. record p { loading = false })

unfoldable pub visible : (String → String) → Fleet → List Node
visible lower p =
    filter
      (λ n.
        (p.filter_ == "all" || name_of n.status == p.filter_)
        && contains (lower (concat (n.name ∷ " " ∷ n.hostname ∷ []))) (lower p.query))
      p.nodes

unfoldable pub count : Health → Fleet → ℕ
count h p = length (filter (λ n. name_of n.status == name_of h) p.nodes)

pub data Act : Type 0 where
  ask_refresh : Act
  search pick_filter : String → Act

-- `Metric` and `Summary`
abbrev metric : String → Option String → List (Widget Act)
metric label none = Widget.text label ∷ Widget.text "—" ∷ []
metric label (some x) = Widget.text label ∷ Widget.text (concat (x ∷ "%" ∷ [])) ∷ []

abbrev summary : String → ℕ → List (Widget Act)
summary label n = Widget.text label ∷ Widget.text (decimal n) ∷ []

abbrev nodes_view : List Node → List (Widget Act)
nodes_view [] = []
nodes_view (n ∷ ns) =
    link (concat ("/fleet/" ∷ encode_uri_component n.name ∷ [])) n.name
      ∷ Widget.text n.hostname
      ∷ Widget.text (name_of n.status)
      ∷ metric "CPU" n.cpu_percent
    ++ (metric "Memory" n.memory_percent
        ++ (metric "Disk" n.disk_percent
            ++ (Widget.text n.message
                ∷ Widget.text "View history and thresholds →"
                ∷ nodes_view ns)))

unfoldable pub fleet_view : (String → String) → Fleet → List (Widget Act)
fleet_view lower p =
    Widget.text "Fleet health"
      ∷ Widget.text "Live status and durable health history"
      ∷ summary "Healthy" (count healthy p)
    ++ (summary "Warning" (count warning p)
        ++ (summary "Offline" (count offline p)
            ++ (input "Search fleet" p.query false search
                  ∷ choice "Filter status" p.filter_ false
                      (("all", "All states")
                        ∷ ("healthy", "Healthy")
                        ∷ ("warning", "Warning")
                        ∷ ("offline", "Offline")
                        ∷ [])
                      pick_filter
                  ∷ button "Refresh" p.loading ask_refresh
                  ∷ when (not (is_blank p.error)) (alert p.error ∷ [])
                ++ (nodes_view (visible lower p)
                    ++ when (not p.loading && is_empty (visible lower p))
                        (Widget.text "No matching hosts." ∷ [])))))

-- The effect of the first render is `ask_refresh` too.
unfoldable pub handle : Act → Fleet → Task State (Body Data)
handle ask_refresh p = start refresh
handle (search x) p = start (set_page (λ (s : Fleet). record s { query = x }))
handle (pick_filter x) p = start (set_page (λ (s : Fleet). record s { filter_ = x }))
