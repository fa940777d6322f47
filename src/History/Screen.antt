-- ===== src/History/Screen.antt =====
-- What `HistoryPage` of ui/app/history/page.tsx shows, and its handlers. `toLowerCase` is the
-- argument `lower`.
use sysadmin_mcp_assisstant.Prelude.{
  String, Bool, true, false, ◌&&◌, ◌||◌, not, List, [], ◌∷◌, ◌++◌, map, filter, any, is_empty, when,
  ◌==◌,
}
use sysadmin_mcp_assisstant.Prelude.Text.{is_blank, concat, contains, decimal, encode_uri_component}
use sysadmin_mcp_assisstant.Task.{Task, start}
use sysadmin_mcp_assisstant.View.{Widget, text, alert, button, choice, input, link}
use sysadmin_mcp_assisstant.Http.{Body}
use sysadmin_mcp_assisstant.Page.{set_page}
use sysadmin_mcp_assisstant.History.{
  Session, Message, History, Data, State, mount, show, remove, remove_all, choose_host,
}

pub data Act : Type 0 where
  first_render : Act
  -- the effect, with the values of `selected` and `host` that it runs for
  changed : String → String → Act
  pick_host search select : String → Act
  drop_one : Session → Bool → Act
  drop_all : Bool → Act

-- `[...new Set(xs)]`
unfoldable pub distinct : List String → List String → List String
distinct seen [] = []
distinct seen (x ∷ xs) = when (not (any (λ y. y == x) seen)) (x ∷ []) ++ distinct (x ∷ seen) xs

unfoldable pub filtered : (String → String) → History → List Session
filtered lower h =
    filter
      (λ s.
        s.host == h.host
        && contains (lower (concat (s.title ∷ " " ∷ s.provider ∷ []))) (lower h.query))
      h.sessions

abbrev session_rows_view : History → List Session → List (Widget Act)
session_rows_view h [] = []
session_rows_view h (s ∷ ss) =
    button s.title false (select s.id)
    ∷ text
        (concat (s.host ∷ " · " ∷ s.provider ∷ " · " ∷ decimal s.message_count ∷ " messages" ∷ []))
    ∷ button (concat ("Delete " ∷ s.title ∷ [])) h.deleting (drop_one s true)
    ∷ button (concat ("Delete " ∷ s.title ∷ [])) h.deleting (drop_one s false)
    ∷ session_rows_view h ss

abbrev messages_view : List Message → List (Widget Act)
messages_view [] = []
messages_view (m ∷ ms) = text m.role ∷ text m.content ∷ messages_view ms

-- The link to the conversation that is selected.
abbrev pub continue_link : History → String
continue_link h =
    concat
      ("/?host=" ∷ encode_uri_component h.host ∷ "&chat=" ∷ encode_uri_component h.selected ∷ [])

-- A button that asks `confirm` stands here once for each of the two answers.
unfoldable pub history_view : (String → String) → History → List (Widget Act)
unfolding distinct filtered
history_view lower h =
    let rows = filtered lower h in
    text "Conversation history"
      ∷ text "Conversations organized by VM"
      ∷ button "Delete all" (is_empty h.sessions || h.deleting) (drop_all true)
      ∷ button "Delete all" (is_empty h.sessions || h.deleting) (drop_all false)
      ∷ when (not (is_blank h.error)) (alert h.error ∷ [])
    ++ choice "Filter history by VM" h.host false
        (when (is_empty h.sessions) (("", "No saved VMs") ∷ [])
          ++ map (λ name. (name, name)) (distinct [] (map (λ s. s.host) h.sessions)))
        pick_host
      ∷ input "Search history" h.query false search
      ∷ session_rows_view h rows
    ++ when (is_empty rows && is_blank h.error) (text "No saved conversations." ∷ [])
    ++ when (not (is_blank h.selected)) (link (continue_link h) "Continue this chat" ∷ [])
    ++ when (is_blank h.selected) (text "Select a conversation for this VM." ∷ [])
    ++ messages_view h.messages

unfoldable pub handle : Act → History → Task State (Body Data)
handle first_render h = start mount
handle (changed selected host) h = start (show selected host)
handle (pick_host x) h = start (choose_host x h)
handle (search x) h = start (set_page (λ (s : History). record s { query = x }))
handle (select id) h = start (set_page (λ (s : History). record s { selected = id }))
handle (drop_one s agreed) h = start (remove s agreed h)
handle (drop_all agreed) h = start (remove_all agreed h)
