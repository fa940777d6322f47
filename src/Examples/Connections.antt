-- ===== src/Examples/Connections.antt =====
-- The theorem on ui/components/mcp-execution-connection.tsx at a concrete run.
use sysadmin_mcp_assisstant.Prelude.{
  String, true, false, ◌≡◌, refl, sym, inl, inr, [], ◌∷◌, none, some,
}
use mathlib.Core.Option.{some-injective}
use sysadmin_mcp_assisstant.Task.{Task, fulfilled, drive}
use sysadmin_mcp_assisstant.Task.Pool.{
  Session, here, next, react, settled, deliver, response, payload,
}
use sysadmin_mcp_assisstant.Examples.{at}
use sysadmin_mcp_assisstant.Http.{Body, api_fetch}
use sysadmin_mcp_assisstant.Execution.{Data, State, connect, create, connection_view, handle}
use sysadmin_mcp_assisstant.Execution.Always.{Safe, Runs, token-Safe}

abbrev granted : Body Data
granted = record { detail = none; value = record { token = some "m1"; expires_at = some "12:00" } }

abbrev idle : State
idle = at "/software" (record { token = ""; message = ""; busy = false })

-- The operator makes a connection, and the backend issues a token.
abbrev asked : State × Task State (Body Data)
unfolding drive api_fetch connect handle
asked = drive (handle create idle.page) idle

abbrev answered : State × Task State (Body Data)
unfolding asked drive
answered = deliver asked.1 (response (fulfilled (record { status = 200; has_body = true }))) asked.0

abbrev connected : State × Task State (Body Data)
unfolding answered drive
connected = deliver answered.1 (payload (fulfilled granted)) answered.0

abbrev session : State × Task State (Body Data) → Session State (Body Data)
session x = record { now = x.0; tasks = x.1 ∷ [] }

abbrev Issued : String → Type 0
Issued t = t ≡ "m1"

issues : (t : String) → some "m1" ≡ some t → Issued t
issues t e = sym (some-injective _ _ e)

connects : Runs Issued (record { now = idle; tasks = [] }) (session connected)
unfolding connection_view asked answered connected
connects =
    next
      (next (next here (react idle [] create (inr (inr (inl (refl, refl)))) refl)) (
        settled asked.0 [] [] asked.1
          (response (fulfilled (record { status = 200; has_body = true }))) refl tt refl))
      (settled answered.0 [] [] answered.1 (payload (fulfilled granted)) refl issues refl)

token-Safe_example : Safe Issued (session connected).now.page
token-Safe_example = token-Safe Issued idle (session connected) refl connects
