-- ===== src/Console/Activity.antt =====
-- `Events` of ui/app/page.tsx: what an agent's turn shows of the events that were streamed.
use sysadmin_mcp_assisstant.Prelude.{
  String, Bool, List, [], ◌∷◌, ◌++◌, Option, none, some, any, ◌==◌, if◌then◌else◌, or_else,
}
use sysadmin_mcp_assisstant.Prelude.Text.{concat, join, or_text}
use sysadmin_mcp_assisstant.View.{Widget, text, spinner}
use sysadmin_mcp_assisstant.Console.{Result, Event}

module _ {E : Type 0} where
  abbrev result_view : Result → List (Widget E)
  result_view r =
      text (concat ("$ " ∷ join " " r.command ∷ []))
      ∷ text (or_text r.stdout (or_text r.stderr "(no output)"))
      ∷ []

  abbrev results_view : List Result → List (Widget E)
  results_view [] = []
  results_view (r ∷ rs) = result_view r ++ results_view rs

  -- `{e.message}`
  abbrev message_view : Option String → List (Widget E)
  message_view none = []
  message_view (some m) = text m ∷ []

  unfoldable pub event_view : Bool → Bool → Event → List (Widget E)
  event_view failed completed e =
      if e.type == "tool_result"
      then results_view (or_else e.results [])
      else if e.type == "thinking"
      then (if failed
          then text "Request failed." ∷ []
          else if completed
          then text "Request completed." ∷ []
          else spinner ∷ message_view e.message)
      else if e.type == "summary"
      then text (or_else e.message "") ∷ []
      else if e.type == "error"
      then message_view e.message
      else if e.type == "done"
      then []
      else if e.type == "tool_start"
      then text (
          or_else e.message
            (concat ("Running " ∷ or_else e.tool "undefined" ∷ " with policy validation…" ∷ [])))
        ∷ []
      else message_view e.message

  unfoldable pub event_views : Bool → Bool → List Event → List (Widget E)
  unfolding event_view
  event_views failed completed [] = []
  event_views failed completed (e ∷ es) =
      event_view failed completed e ++ event_views failed completed es

  unfoldable pub events_view : List Event → List (Widget E)
  unfolding event_views
  events_view [] = spinner ∷ text "Starting…" ∷ []
  events_view (e ∷ es) =
      let failed = any (λ x. x.type == "error") (e ∷ es) in
      let completed = any (λ x. x.type == "summary") (e ∷ es) in
      event_views failed completed (e ∷ es)
