-- ===== src/Execution.antt =====
-- ui/components/mcp-execution-connection.tsx: the token of an MCP client.
pub mod Tokens
pub mod Always
use sysadmin_mcp_assisstant.Prelude.{
  String, Bool, true, false, ◌||◌, not, List, [], ◌∷◌, ◌++◌, Option, none, some, when, or_else,
}
use sysadmin_mcp_assisstant.Prelude.Text.{is_blank, concat}
use sysadmin_mcp_assisstant.Task.{
  error, message_of, Task, Code, ok, throw, ◌>>=◌, ◌>>◌, ite, await_json, start,
}
use sysadmin_mcp_assisstant.View.{Widget, text, button}
use sysadmin_mcp_assisstant.Http.{World, Body, api_fetch}
use sysadmin_mcp_assisstant.Page.{set_page, guarded}

pub record Connection : Type 0 where
  pub token : String
  pub message : String
  pub busy : Bool

unfoldable pub initial : Connection
initial = record { token = ""; message = ""; busy = false }

-- The `token` and `expires_at` of the body.
pub record Data : Type 0 where
  pub token : Option String
  pub expires_at : Option String

abbrev pub State : Type 0
State = World Connection

-- `${data.expires_at}` of a body without the field is `undefined`.
unfoldable pub connect : Code State (Body Data) (Unit {0})
connect = do
  set_page (λ c. record c { busy = true; token = ""; message = "" })
  guarded
      (do
        response ← api_fetch "/api/scripts/mcp-connection" (some "POST") none
        body ← await_json response
        ite (not (ok response) || is_blank (or_else body.value.token ""))
            (throw (error (or_else body.detail "Could not connect MCP.")))
            (set_page (λ c. record c {
              token = or_else body.value.token "";
              message = concat (
                  "Connection expires with this armed session ("
                  ∷ or_else body.value.expires_at "undefined"
                  ∷ ")."
                  ∷ []);
            })))
      (λ e c. record c { message = message_of e "Connection failed." })
      (λ c. record c { busy = false })

-- `copied` is whether the clipboard took the token.
pub data Act : Type 0 where
  create : Act
  copy : Bool → Act

unfoldable pub connection_view : Connection → List (Widget Act)
connection_view c =
    text "Connect your MCP agent"
      ∷ text (
          concat (
            "This delegates the currently armed session to your MCP client. Every host job "
            ∷ "requires your approval here before execution, including Autonomous Lab jobs. "
            ∷ "Disable or re-arm the mode to revoke the connection." ∷ []))
      ∷ button "Create MCP connection" c.busy create
      ∷ when (not (is_blank c.token)) (
          text c.token
          ∷ button "Copy token" false (copy true)
          ∷ button "Copy token" false (copy false)
          ∷ text (
              concat (
                "Set SYSADMIN_MCP_EXECUTION_TOKEN in your MCP client environment, "
                ∷ "then restart its server with:" ∷ []))
          ∷ text "sysadmin-mcp --enable-host-scripts"
          ∷ text (
              concat (
                "The MCP server must run on the same machine as this backend. "
                ∷ "Never paste the token into the model conversation. "
                ∷ "Creating another connection revokes the previous token." ∷ []))
          ∷ [])
    ++ when (not (is_blank c.message)) (text c.message ∷ [])

unfoldable pub handle : Act → Connection → Task State (Body Data)
handle create c = start connect
handle (copy true) c = start (
    set_page (λ (s : Connection). record s {
      message =
          concat (
            "Token copied. Store it in your MCP client environment, " ∷ "not a chat message." ∷ []);
    }))
handle (copy false) c = start (
    set_page (λ (s : Connection). record s {
      message = "Clipboard unavailable. Select the token field and copy manually.";
    }))
