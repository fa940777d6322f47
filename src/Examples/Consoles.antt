-- ===== src/Examples/Consoles.antt =====
-- The theorems on ui/app/page.tsx at concrete pages and answers.
use sysadmin_mcp_assisstant.Prelude.{
  String, true, false, if◌then◌else◌, ◌≤◌, ◌≡◌, refl, ◌⊎◌, List, [], ◌∷◌, ◌++◌, none, some, All,
}
use sysadmin_mcp_assisstant.Prelude.Text.{concat, trim}
use sysadmin_mcp_assisstant.Task.{Task, fulfilled, done, drive, start, expect}
use sysadmin_mcp_assisstant.Task.{text, object, field, close}
use sysadmin_mcp_assisstant.Task.Sends.{SendsOnce}
use sysadmin_mcp_assisstant.Task.Pool.{
  Session, here, next, react, settled, deliver, response, payload,
}
use sysadmin_mcp_assisstant.Task.Outcome.{Ensures}
use sysadmin_mcp_assisstant.Http.{Body, api_fetch, request_of}
use sysadmin_mcp_assisstant.Console.{Conversation, Data, rows, State}
use sysadmin_mcp_assisstant.Console.Load.{select_host}
use sysadmin_mcp_assisstant.Console.Submit.{refuses, submit, list_chat, user_turn, agent_turn}
use sysadmin_mcp_assisstant.Console.Screen.{pick_host, send, handle}
use sysadmin_mcp_assisstant.Console.Prompts.Single
use sysadmin_mcp_assisstant.Console.Prompts.Single.{one_prompt}
use sysadmin_mcp_assisstant.Page.Exclusive.Sole.{posts}
use sysadmin_mcp_assisstant.Console.Hosts.Always.{Runs, listed-of_host}
use sysadmin_mcp_assisstant.Console.Superseded.{Idle, select_host_superseded}
use sysadmin_mcp_assisstant.Console.Chunks.{feed, feed_chunking}
use sysadmin_mcp_assisstant.Console.Form.{Complete, submit_gate, submit_releases}
use sysadmin_mcp_assisstant.Examples.{browser_at, at, parse_line, ready_console}

abbrev home : State
home = at "/" ready_console

feed_chunking_example :
    feed parse_line ("{on" ∷ "e}\n{tw" ∷ "o}\n" ∷ []) "" ready_console
    ≡ feed parse_line ("{one}\n" ∷ "{two}\n" ∷ []) "" ready_console
unfolding concat
feed_chunking_example =
    feed_chunking parse_line "{on" "{one}\n" ("e}\n{tw" ∷ "o}\n" ∷ []) ("{two}\n" ∷ []) ""
      ready_console refl

submit_gate_example :
    (¬ Complete ready_console
      × (drive (start (submit parse_line ready_console)) home ≡ (home, done)))
    ⊎ (Complete ready_console
        × SendsOnce (drive (start (submit parse_line ready_console)) home).1 (
            request_of "/api/chat"
              (some "POST")
              (some (
                object (
                  field "message" (text (trim ready_console.message)) (
                    field "host"
                      (text "web")
                      (field "provider" (text "openai") (field "session_id" (text "s1") close))))))
              (browser_at "/"))
        × ((drive (start (submit parse_line ready_console)) home).0.page ≡ record ready_console {
          conversations =
              list_chat ready_console (trim ready_console.message) ready_console.conversations;
          message = "";
          running = true;
          turns = ready_console.turns ++ user_turn (trim ready_console.message) ∷ agent_turn ∷ [];
        }))
submit_gate_example = submit_gate parse_line home

submits : refuses ready_console ≡ false
unfolding refuses trim
submits = refl

submit_releases_example :
    Ensures
      (λ _ _. Unit {0})
      (λ _. Unit {0})
      (λ _ s'. s'.page.running ≡ false)
      home
      (start (submit parse_line ready_console))
      home
submit_releases_example = submit_releases parse_line home submits

select_host_superseded_example :
    Ensures (Idle 2) (λ _. Unit {0}) (Idle 2) home (start (select_host "db" none)) home
select_host_superseded_example = select_host_superseded "db" none home

-- The operator picks the VM `db`, and the backend answers that it has no conversation.
abbrev picked : State × Task State (Body Data)
unfolding drive api_fetch select_host handle
picked = drive (handle parse_line (pick_host "db") ready_console) home

abbrev answered : State × Task State (Body Data)
unfolding picked drive
answered =
    deliver picked.1 (response (fulfilled (record { status = 200; has_body = true }))) picked.0

abbrev none_saved : Body Data
none_saved = record { detail = none; value = rows [] }

abbrev loaded : State × Task State (Body Data)
unfolding answered drive expect
loaded = deliver answered.1 (payload (fulfilled none_saved)) answered.0

abbrev session : State × Task State (Body Data) → Session State (Body Data)
session x = record { now = x.0; tasks = x.1 ∷ [] }

picks : Runs parse_line (record { now = home; tasks = [] }) (session picked)
unfolding picked
picks = next here (react home [] (pick_host "db") tt refl)

no_rows :
    (found : List Conversation) (host : String)
    → rows [] ≡ rows found
    → All (λ (row : Conversation). row.host ≡ host) found
no_rows [] host e = tt
no_rows (x ∷ xs) host e = absurd (cc)

loads : Runs parse_line (record { now = home; tasks = [] }) (session loaded)
unfolding picked answered loaded
loads =
    next
      (next picks (
        settled picked.0 [] [] picked.1
          (response (fulfilled (record { status = 200; has_body = true }))) refl tt refl))
      (settled answered.0 [] [] answered.1 (payload (fulfilled none_saved)) refl
        (λ host w found _ e. no_rows found host e) refl)

listed-of_host_example :
    All
      (λ (row : Conversation). row.host ≡ (session loaded).now.page.host)
      (session loaded).now.page.conversations
listed-of_host_example =
    listed-of_host parse_line (browser_at "/") ready_console (session loaded) refl loads

-- The operator sends the prompt, and selects another VM before it is answered.
abbrev prompted : State × Task State (Body Data)
unfolding drive api_fetch submit handle
prompted = drive (handle parse_line send ready_console) home

abbrev moved_on : State × Task State (Body Data)
unfolding drive api_fetch select_host handle prompted
moved_on = drive (handle parse_line (pick_host "db") prompted.0.page) prompted.0

abbrev both_wait : Session State (Body Data)
both_wait = record { now = moved_on.0; tasks = prompted.1 ∷ moved_on.1 ∷ [] }

sends_and_picks : Single.Runs parse_line (record { now = home; tasks = [] }) both_wait
unfolding prompted moved_on
sends_and_picks =
    next (next here (react home [] send tt refl))
      (react prompted.0 (prompted.1 ∷ []) (pick_host "db") tt refl)

one_prompt_example : posts both_wait.tasks ≤ (if both_wait.now.page.running then 1 else 0)
one_prompt_example = one_prompt parse_line home both_wait sends_and_picks
