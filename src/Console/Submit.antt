-- ===== src/Console/Submit.antt =====
-- `submit` of ui/app/page.tsx: one prompt, and the stream of events that answers it.
-- `JSON.parse` of a line is the argument `parse`.
use sysadmin_mcp_assisstant.Prelude.{
  String, Bool, true, false, ◌&&◌, ◌||◌, List, [], ◌∷◌, ◌++◌, Option, none, some, any, init, last,
  ◌==◌, if◌then◌else◌, or_else,
}
use Prim.Native.String
use sysadmin_mcp_assisstant.Prelude.Text.{is_blank, concat, trim, split, decimal}
use sysadmin_mcp_assisstant.Task.{
  Failure, error, message_of, Settled, fulfilled, rejected, Json, text, object, field, close, ok,
  pure, throw, ◌>>=◌, ◌>>◌, ite, await_reads, attempt, finally,
}
use sysadmin_mcp_assisstant.Http.{api_fetch}
use sysadmin_mcp_assisstant.Console.{Turn, user, agent, Event, Conversation, Console, State, Reads}
use sysadmin_mcp_assisstant.Page.{set_page}

abbrev pub events_of : Option Turn → List Event
events_of none = []
events_of (some t) = or_else t.events []

-- `[...x.slice(0, -1), { role: 'agent', events: [...(x.at(-1)?.events ?? []), item] }]`
unfoldable pub append_event : Event → List Turn → List Turn
append_event item x =
    init x
    ++ record { role = agent; content = none; events = some (events_of (last x) ++ item ∷ []) } ∷ []

unfoldable pub receive : Event → Console → Console
unfolding append_event
receive item c =
    if item.type == "session"
    then record c {
      session_id =
          (let given = or_else item.session_id "" in
            if is_blank given then c.session_id else given);
    }
    else if item.type == "llm_debug"
    then c
    else record c { turns = append_event item c.turns }

abbrev pub chat_body : String → Console → Json
chat_body prompt c = object (
    field "message" (text prompt) (
      field "host" (text c.host)
        (field "provider" (text c.provider) (field "session_id" (text c.session_id) close))))

-- The early `return`, over the values of the render that shows the form.
unfoldable pub refuses : Console → Bool
refuses c =
    is_blank (trim c.message)
    || is_blank c.host
    || is_blank c.session_id
    || c.running
    || c.loading_chat

abbrev pub plain : String → String → Event
plain type content = record {
  type = type;
  message = some content;
  tool = none;
  results = none;
  summary = none;
  session_id = none;
}

abbrev pub user_turn : String → Turn
user_turn prompt = record { role = user; content = some prompt; events = none }

abbrev pub agent_turn : Turn
agent_turn = record { role = agent; content = none; events = some [] }

-- The conversation is listed with its first message.
abbrev pub list_chat : Console → String → List Conversation → List Conversation
list_chat c prompt rows =
    if any (λ row. row.id == c.session_id) rows
    then rows
    else record { id = c.session_id; title = prompt; host = c.host; provider = c.provider } ∷ rows

abbrev pub keep_rest : Option Failure → String → Settled String
keep_rest none rest = fulfilled rest
keep_rest (some f) rest = rejected f

module _ (parse : String → Settled Event) where
  -- The loop over the lines that are complete; a line that does not parse stops it.
  unfoldable pub consume : List String → Console → Option Failure × Console
  consume [] c = (none, c)
  consume (line ∷ lines) c = if is_blank (trim line) then consume lines c else elim (parse line) [
    | rejected f ↦ (some f, c)
    | fulfilled item ↦ consume lines (receive item c)
  ]

  -- What follows a `read()`: `buf` holds the last line, which may not be complete.
  unfoldable pub read_chunk : String → String → Console → Settled String × Console
  unfolding consume
  read_chunk chunk buf c =
      let lines = split 10 (String.◌++◌ buf chunk) in
      let (failed, c') = consume (init lines) c in (keep_rest failed (or_else (last lines) ""), c')

  abbrev pub on_state : String → String → State → Settled String × State
  on_state chunk buf s = let (x, c) = read_chunk chunk buf s.page in (x, record s { page = c })

  -- `submit` of the render that shows `c`.
  unfoldable pub submit : Console → Reads (Unit {0})
  unfolding refuses
  submit c =
      let prompt = trim c.message in
      ite (refuses c) (pure tt) (do
        set_page (λ s. record s { conversations = list_chat c prompt s.conversations })
        set_page (λ s. record s { message = "" })
        set_page (λ s. record s { running = true })
        set_page (λ s. record s { turns = s.turns ++ user_turn prompt ∷ agent_turn ∷ [] })
        finally
            (attempt
              (do
                r ← api_fetch "/api/chat" (some "POST") (some (chat_body prompt c))
                ite (ok r && r.has_body) (pure tt)
                    (throw (error (concat ("Agent API returned " ∷ decimal r.status ∷ []))))
                await_reads r "" on_state)
              (λ f. set_page (λ s. record s {
                turns = append_event (plain "error" (message_of f "Connection failed")) s.turns;
              })))
            (set_page (λ s. record s { running = false })))
