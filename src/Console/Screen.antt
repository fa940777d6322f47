-- ===== src/Console/Screen.antt =====
-- What `Home` of ui/app/page.tsx shows, and the handler of each thing the user can do there.
use sysadmin_mcp_assisstant.Prelude.{
  String, Bool, true, false, ◌||◌, not, List, [], ◌∷◌, ◌++◌, none, some, map, any, find, filter,
  last, is_empty, length, when, ◌==◌, if◌then◌else◌, or_else, opt_map,
}
use sysadmin_mcp_assisstant.Prelude.Text.{
  is_blank, concat, trim, slice, replace_first, or_text, decimal,
}
use sysadmin_mcp_assisstant.Task.{Settled, Task, pure, start, ite}
use sysadmin_mcp_assisstant.View.{Widget, text, alert, status, spinner, button, choice, input, form}
use sysadmin_mcp_assisstant.Http.{Body}
use sysadmin_mcp_assisstant.Console.{Event, user, agent, Turn, Provider, Console, Data, State}
use sysadmin_mcp_assisstant.Page.{set_page}
use sysadmin_mcp_assisstant.Console.Load.{open_chat, select_host, new_chat, mount}
use sysadmin_mcp_assisstant.Console.Submit.{events_of, submit}
use sysadmin_mcp_assisstant.Console.Activity.{events_view}

-- What the user can do, and the page's first render.
pub data Act : Type 0 where
  first_render send start_chat : Act
  pick_host pick_chat write : String → Act
  pick_provider : Provider → Act

-- The diagnostics of the side bar: label and prompt.
abbrev pub actions : List (String × String)
actions =
    ("Open ports", "Check open ports and flag anything unusual")
    ∷ ("Failed services", "Show failed services")
    ∷ ("Resources", "Check CPU and memory usage")
    ∷ ("Disk & inodes", "Check disk space and inode usage")
    ∷ ("Top processes", "Show the top CPU and memory consuming processes")
    ∷ ("Network", "Inspect network interfaces and routes")
    ∷ ("Docker", "Check Docker container status and resource usage")
    ∷ ("Active users", "Who is logged in?")
    ∷ []

unfoldable pub header_view : Console → List (Widget Act)
header_view c =
    text "Evesdropctl"
    ∷ text "READ ONLY"
    ∷ text "Sysadmin MCP agent"
    ∷ text (if c.online then "Agent connected" else "Agent offline")
    ∷ choice "Selected VM" c.host c.running (map (λ h. (h.name, h.name)) c.hosts) pick_host
    ∷ []

unfoldable pub diagnostics_view : List (Widget Act)
diagnostics_view =
    text "Diagnostics" ∷ map (λ a. button a.0 false (write a.1)) actions
    ++ text "Policy enforced"
      ∷ text "Bounded diagnostics. Allowlisted and audited."
      ∷ text "Separate conversations for each VM"
      ∷ []

abbrev pub blocked : Console → Bool
blocked c = c.running || c.loading_chat || is_blank c.host

unfoldable pub chats_view : Console → List (Widget Act)
chats_view c =
    text "VM workspace"
      ∷ text (or_text c.host "Choose a VM")
      ∷ choice "Conversation for selected VM"
          (if any (λ row. row.id == c.session_id) c.conversations then c.session_id else "")
          (blocked c)
          (("", "New conversation") ∷ map (λ row. (row.id, slice 70 row.title)) c.conversations)
          pick_chat
      ∷ button "New chat" (blocked c) start_chat
      ∷ when (not (is_blank c.chat_error)) (alert c.chat_error ∷ [])
    ++ when c.loading_chat (status "Loading conversation…" ∷ [])

unfoldable pub turn_view : Turn → List (Widget Act)
turn_view t = elim t.role [
  | user ↦ text (or_else t.content "") ∷ []
  | agent ↦ events_view (or_else t.events [])
]

unfoldable pub turns_view : List Turn → List (Widget Act)
unfolding turn_view
turns_view [] = []
turns_view (t ∷ ts) = turn_view t ++ turns_view ts

abbrev provider_button : Console → Provider → List (Widget Act)
provider_button c p =
    button p.label (not p.enabled || c.running) (pick_provider p)
    ∷ when (not p.enabled) (text "Soon" ∷ [])

unfoldable pub providers_view : Console → List Provider → List (Widget Act)
providers_view c [] = []
providers_view c (p ∷ ps) = provider_button c p ++ providers_view c ps

-- The submit button's `disabled`.
unfoldable pub send_disabled : Console → Bool
send_disabled c =
    not c.online
    || is_blank c.host
    || is_blank c.session_id
    || is_blank (trim c.message)
    || c.running
    || c.loading_chat

unfoldable pub prompt_view : Console → List (Widget Act)
unfolding providers_view send_disabled
prompt_view c =
    form send ∷ providers_view c c.providers
    ++ input
        (if c.online
          then "Ask Evesdropctl to inspect this host…"
          else "Start sysadmin-web to connect…")
        c.message false write
      ∷ text "Keys stay in the server-side .env file"
      ∷ when c.running (spinner ∷ [])
    ++ button
        (if c.running
          then "Working"
          else concat (
              "Run with "
              ∷ or_else (opt_map (λ p. p.label) (find (λ p. p.id == c.provider) c.providers))
                  c.provider
              ∷ []))
        (send_disabled c) send
      ∷ []

-- `turns.filter((x) => x.role === 'agent').at(-1)?.events ?? []`
abbrev is_agent : Turn → Bool
is_agent t = elim t.role [ user ↦ false | agent ↦ true ]

abbrev pub latest : Console → List Event
latest c = events_of (last (filter is_agent c.turns))

abbrev activity_rows : List Event → List (Widget Act)
activity_rows [] = []
activity_rows (e ∷ es) =
    text (or_else e.tool (replace_first b'_' " " e.type))
    ∷ text (or_else e.message (or_else e.summary ""))
    ∷ activity_rows es

unfoldable pub activity_view : Console → List (Widget Act)
activity_view c =
    text "Live activity"
      ∷ (if is_empty (latest c)
          then text "Actions appear here as they run." ∷ []
          else activity_rows (latest c))
    ++ elim (find (λ h. h.name == c.host) c.hosts) [
      | none ↦ text "No host" ∷ text "Offline" ∷ []
      | some h ↦
          text h.hostname
          ∷ text (concat (decimal (length h.allowed_logs) ∷ " allowlisted logs" ∷ []))
          ∷ []
    ]

unfoldable pub home_view : Console → List (Widget Act)
unfolding header_view diagnostics_view chats_view turns_view prompt_view activity_view
home_view c =
    header_view c
    ++ diagnostics_view
    ++ chats_view c
    ++ text (
        concat (
          "Selected VM: "
          ∷ or_text c.host "a configured host"
          ∷ ". Observe runs diagnostics. Guided Lab prepares scripts for review; "
          ∷ "Autonomous Lab executes requests when Host scripts is armed."
          ∷ []))
      ∷ turns_view c.turns
    ++ prompt_view c
    ++ activity_view c

-- The chosen option `""` of the conversations stands for a new one.
unfoldable pub handle : (String → Settled Event) → Act → Console → Task State (Body Data)
handle parse first_render c = start mount
handle parse send c = start (submit parse c)
handle parse start_chat c = start (new_chat c.host)
handle parse (pick_host h) c = start (select_host h none)
handle parse (pick_chat id) c = start (ite (is_blank id) (new_chat c.host) (open_chat id c.host))
handle parse (pick_provider p) c =
    start (ite p.enabled (set_page (λ s. record s { provider = p.id })) (pure tt))
handle parse (write m) c = start (set_page (λ s. record s { message = m }))
