-- ===== src/Examples/Bars.antt =====
-- The theorem on ui/components/app-nav.tsx at a concrete state.
use sysadmin_mcp_assisstant.Prelude.{true, false}
use sysadmin_mcp_assisstant.Task.{start}
use sysadmin_mcp_assisstant.Task.Outcome.{Anything, Anytime, Ensures}
use sysadmin_mcp_assisstant.Navigation.{State, logout}
use sysadmin_mcp_assisstant.Navigation.SignOut.{SignedOut, logout_ends}
use sysadmin_mcp_assisstant.Examples.{at}

abbrev bar : State
bar = at "/vms" (record { mounted = true; is_open = false })

logout_ends_example : Ensures Anytime Anything SignedOut bar (start (logout {D = Unit {0}})) bar
logout_ends_example = logout_ends bar
