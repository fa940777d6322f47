-- ===== src/Changes/Listing.antt =====
-- The transactions in ui/app/changes/page.tsx with their progress and their hosts, below the form of a
-- plan, and the page's handlers.
use sysadmin_mcp_assisstant.Prelude.{
  String, Bool, true, false, ◌&&◌, not, List, [], ◌∷◌, ◌++◌, none, some, map, is_empty, when,
  length, ltb,
}
use sysadmin_mcp_assisstant.Prelude.Text.{is_blank, concat, includes}
use sysadmin_mcp_assisstant.Task.{text, object, field, close, Task, start, pure, ite, ◌>>=◌}
use sysadmin_mcp_assisstant.View.{Widget, alert, button, lift}
use sysadmin_mcp_assisstant.Http.{Body}
use sysadmin_mcp_assisstant.Page.{set_page}
use sysadmin_mcp_assisstant.History.Screen.{distinct}
use sysadmin_mcp_assisstant.Changes.{
  Action, Change, Changes, Data, State, call, load, mount, tick, create,
}
use sysadmin_mcp_assisstant.Changes.Workflow.{completed_steps}
use sysadmin_mcp_assisstant.Changes.Details.{Printer, stamps_texts, details_texts}
use sysadmin_mcp_assisstant.Changes.Stages
use sysadmin_mcp_assisstant.Changes.Stages.{open_states, stage_view}
use sysadmin_mcp_assisstant.Changes.Plans.{
  Event, appear, elapse, stop_editing, save, type_title, pick_host, pick_action, pick_target,
  pick_package, pick_version, type_target, type_value, skip, step, plan_view,
}

abbrev pub workflow : List String
workflow =
    "Inspect" ∷ "Plan" ∷ "Preview" ∷ "Backup" ∷ "Apply" ∷ "Validate" ∷ "Activate" ∷ "Verify"
    ∷ "Rollback" ∷ []

-- The steps in order, with those that are done checked.
unfoldable pub progress : Change → List (String × Bool)
progress c = map (λ s. (s, includes (completed_steps c) s)) workflow

-- `[...new Set(item.actions.map((entry) => entry.host))]`
abbrev pub hosts_of : Change → List String
hosts_of c = distinct [] (map (λ (a : Action). a.host) c.actions)

-- The hosts; those of a transaction with several that has not started can be skipped. A button that
-- asks `confirm` stands here once for each of the two answers.
abbrev pub hosts_view : Changes → Change → List String → List (Widget Event)
hosts_view p c [] = []
hosts_view p c (h ∷ hs) =
    Widget.text (concat (h ∷ " · " ∷ c.state ∷ []))
      ∷ when (ltb 1 (length (hosts_of c)) && includes open_states c.state) (
          button (concat ("Skip unstarted host " ∷ h ∷ [])) p.busy (skip true c h)
          ∷ button (concat ("Skip unstarted host " ∷ h ∷ [])) p.busy (skip false c h)
          ∷ [])
    ++ hosts_view p c hs

-- A transaction. The icons and colours of its steps are those of `progress`.
unfoldable pub item_view : Printer → Changes → Change → List (Widget Event)
item_view l p c =
    Widget.text c.title
      ∷ Widget.text c.state
      ∷ map (λ (s : String × Bool). Widget.text s.0) (progress c)
    ++ (hosts_view p c (hosts_of c)
        ++ (map (λ x. Widget.text x) (stamps_texts l c)
            ++ (map (λ x. Widget.text x) (details_texts l c)
                ++ map (lift (λ a. step a c)) (stage_view p c))))

abbrev items_view : Printer → Changes → List Change → List (Widget Event)
items_view l p [] = []
items_view l p (c ∷ cs) = item_view l p c ++ items_view l p cs

unfoldable pub changes_view : Printer → Changes → List (Widget Event)
changes_view l p =
    Widget.text "Change transactions"
      ∷ Widget.text "Human-approved automation workflow"
      ∷ Widget.text "Simulation only — no remote mutation"
      ∷ Widget.text (
          concat (
            "Plans are typed, scope-checked, hashed, reauthenticated, single-use, and "
            ∷ "recorded. Phase 16 does not write files, install packages, or restart services."
            ∷ []))
      ∷ when (not (is_blank p.error)) (alert p.error ∷ [])
    ++ (plan_view p
        ++ (when (is_empty p.items) (Widget.text "No transactions in this session." ∷ [])
            ++ items_view l p p.items))

-- `agreed` is what the operator answers to `confirm`.
unfoldable pub skip_host : Bool → Change → String → State → Task State (Body Data)
skip_host agreed c host s = start (
    ite agreed
      (do
        x ←
            call (concat ("/api/changes/" ∷ c.id ∷ "/skip-host" ∷ []))
              (some (object (field "host" (text host) close)))
        load)
      (pure tt))

unfoldable pub handle : Event → State → Task State (Body Data)
handle appear s = start mount
handle elapse s = start tick
handle stop_editing s = start (
    set_page (λ (p : Changes). record p {
      editing_id = none;
      title = "";
      target = "";
      value = "";
      version = "";
    }))
handle save s = start (create s.page)
handle (type_title x) s = start (set_page (λ (p : Changes). record p { title = x }))
handle (pick_host x) s = start (set_page (λ (p : Changes). record p { host = x; target = "" }))
handle (pick_action x) s = start (set_page (λ (p : Changes). record p { action = x; target = "" }))
handle (pick_target x) s = start (set_page (λ (p : Changes). record p { target = x }))
handle (pick_package x) s =
    start (set_page (λ (p : Changes). record p { target = x; version = "" }))
handle (pick_version x) s = start (set_page (λ (p : Changes). record p { version = x }))
handle (type_target x) s = start (set_page (λ (p : Changes). record p { target = x }))
handle (type_value x) s = start (set_page (λ (p : Changes). record p { value = x }))
handle (skip agreed c host) s = skip_host agreed c host s
handle (step a c) s = Stages.handle a c s.page
