-- ===== src/Console/Load.antt =====
-- Loading in ui/app/page.tsx: the effect of the first render, `selectHost`, `openChat`, `newChat`.
use sysadmin_mcp_assisstant.Prelude.{
  ℕ, suc, String, true, false, ◌&&◌, not, List, [], ◌∷◌, Option, none, some, map, any, find, first,
  eqb, ◌==◌, if◌then◌else◌, or_else, opt_map,
}
use sysadmin_mcp_assisstant.Prelude.Text.{is_blank, concat, encode_uri_component}
use sysadmin_mcp_assisstant.Task.{
  other, message_of, ok, pure, throw, update, state, ◌>>=◌, ◌>>◌, ite, await_json, attempt, finally,
  expect,
}
use sysadmin_mcp_assisstant.Http.{on_browser, api_fetch}
use sysadmin_mcp_assisstant.Page.{set_page, require_ok}
use sysadmin_mcp_assisstant.Console.SessionId.{create_session_id}
use sysadmin_mcp_assisstant.Console.{
  Host, Provider, Turn, user, agent, Conversation, SavedMessage, Console, Data, identity, host_rows,
  provider_rows, rows, saved, Reads, lookup, insert,
}

-- `(await response.json()) as T`
abbrev pub identity_of : Data → Option String
identity_of (identity token) = some token
identity_of d = none

abbrev pub hosts_of : Data → Option (List Host)
hosts_of (host_rows xs) = some xs
hosts_of d = none

abbrev pub providers_of : Data → Option (List Provider)
providers_of (provider_rows xs) = some xs
providers_of d = none

abbrev pub rows_of : Data → Option (List Conversation)
rows_of (rows xs) = some xs
rows_of d = none

abbrev pub saved_of : Data → Option (List SavedMessage)
saved_of (saved xs) = some xs
saved_of d = none

-- `if (version === selection.current) …`
abbrev pub if_current : ℕ → Reads (Unit {0}) → Reads (Unit {0})
if_current version m = do s ← state; ite (eqb version s.page.selection) m (pure tt)

-- `createSessionId()`
abbrev fresh_id : Reads String
fresh_id = do
  s ← state
  set_page (λ c. record c { drawn = suc c.drawn })
  pure (create_session_id (s.page.random s.page.drawn))

abbrev pub chat_path : String → String → String
chat_path id host = concat ("/api/chat/sessions/" ∷ id ∷ "?host=" ∷ encode_uri_component host ∷ [])

abbrev pub rows_path : String → String
rows_path host = concat ("/api/chat/sessions?host=" ∷ encode_uri_component host ∷ "&limit=200" ∷ [])

-- The turns of a saved conversation.
abbrev pub turn_of : SavedMessage → Turn
turn_of m =
    if m.by_user then record { role = user; content = some m.content; events = none } else record {
      role = agent;
      content = none;
      events = some (
          record {
            type = "summary";
            message = some m.content;
            tool = none;
            results = none;
            summary = none;
            session_id = none;
          }
          ∷ []);
    }

-- `openChat` with its third argument given.
unfoldable pub open_at : String → String → ℕ → Reads (Unit {0})
open_at id target version = do
  set_page (λ c. record c { loading_chat = true; chat_error = ""; turns = []; session_id = "" })
  finally
      (attempt
        (do
          response ← api_fetch (chat_path id target) none none
          require_ok (ok response) "Could not open this conversation."
          body ← await_json response
          messages ← expect (saved_of body.value)
          s ← state
          ite (eqb version s.page.selection)
              (do
                set_page (λ c. record c { session_id = id })
                set_page (λ c. record c { active_chats = insert target id c.active_chats })
                set_page (λ c. record c { turns = map turn_of messages }))
              (pure tt))
        (λ f.
          if_current version
            (set_page (λ c. record c { chat_error = message_of f "Could not load chat." }))))
      (if_current version (set_page (λ c. record c { loading_chat = false })))

-- `openChat(id)` of a render that shows `host`.
unfoldable pub open_chat : String → String → Reads (Unit {0})
open_chat id host = do
  set_page (λ c. record c { selection = suc c.selection })
  s ← state
  open_at id host s.page.selection

-- `const previous = requestedChat ?? activeChats.current[nextHost]`
abbrev pub previous_chat : Option String → String → Console → String
previous_chat requested host c = or_else requested (or_else (lookup host c.active_chats) "")

unfoldable pub select_host : String → Option String → Reads (Unit {0})
select_host next_host requested = do
  set_page (λ c. record c {
    selection = suc c.selection;
    host = next_host;
    turns = [];
    conversations = [];
    message = "";
    session_id = "";
    chat_error = "";
    loading_chat = true;
  })
  now ← state
  let version = now.page.selection
  finally
      (attempt
        (do
          response ← api_fetch (rows_path next_host) none none
          require_ok (ok response) "Could not load conversations for this VM."
          body ← await_json response
          found ← expect (rows_of body.value)
          s ← state
          ite (eqb version s.page.selection)
              (do
                set_page (λ c. record c { conversations = found })
                s' ← state
                let previous = previous_chat requested next_host s'.page
                ite (not (is_blank previous) && any (λ row. row.id == previous) found)
                    (open_at previous next_host version)
                    (do
                      id ← fresh_id
                      set_page (λ c. record c { active_chats = insert next_host id c.active_chats })
                      set_page (λ c. record c { session_id = id })))
              (pure tt))
        (λ f.
          if_current version
            (set_page (λ c. record c { chat_error = message_of f "Could not load chats." }))))
      (if_current version (set_page (λ c. record c { loading_chat = false })))

-- `newChat()` of a render that shows `host`.
unfoldable pub new_chat : String → Reads (Unit {0})
new_chat host = do
  set_page (λ c. record c { selection = suc c.selection })
  id ← fresh_id
  set_page (λ c. record c { active_chats = insert host id c.active_chats })
  set_page (λ c. record c {
    session_id = id;
    turns = [];
    message = "";
    chat_error = "";
    loading_chat = false;
  })

abbrev initial_host : List Host → Option String → String
initial_host hosts none = or_else (opt_map (λ h. h.name) (first hosts)) ""
initial_host hosts (some wanted) =
    or_else (opt_map (λ h. h.name) (find (λ h. h.name == wanted) hosts))
      (or_else (opt_map (λ h. h.name) (first hosts)) "")

-- The effect of the first render. `Promise.all` is taken in the order of its members. `setOnline`
-- stands before the call of `selectHost`, which in the source runs up to its own `await` first and
-- does not touch `online`.
unfoldable pub mount : Reads (Unit {0})
mount =
    attempt
      (do
        auth ← api_fetch "/api/auth/me" none none
        require_ok (ok auth) "Authentication required"
        body ← await_json auth
        token ← expect (identity_of body.value)
        update (on_browser (λ b. record b { csrf = some token }))
        r ← api_fetch "/api/hosts" none none
        ite (ok r) (pure tt) (throw other)
        hosts_body ← await_json r
        hosts ← expect (hosts_of hosts_body.value)
        r' ← api_fetch "/api/providers" none none
        ite (ok r') (pure tt) (throw other)
        providers_body ← await_json r'
        providers ← expect (providers_of providers_body.value)
        set_page (λ c. record c { hosts = hosts })
        set_page (λ c. record c { providers = providers })
        s ← state
        let chosen = initial_host hosts s.page.query_host
        set_page (λ c. record c { online = true })
        ite (is_blank chosen) (pure tt) (select_host chosen s.page.query_chat))
      (λ _. set_page (λ c. record c { online = false }))
