-- ===== src/Examples/Saved.antt =====
-- The theorems on ui/app/history/page.tsx at a concrete page.
use sysadmin_mcp_assisstant.Prelude.{◌≡◌, [], ◌∷◌, none, some}
use sysadmin_mcp_assisstant.Http.{Body}
use sysadmin_mcp_assisstant.Console.Query.{codes, query_value}
use sysadmin_mcp_assisstant.Examples.{at}
use sysadmin_mcp_assisstant.History.{Data, nothing, State, initial}
use sysadmin_mcp_assisstant.History.Screen.{continue_link}
use sysadmin_mcp_assisstant.History.Links.{continue_link-query_value}

abbrev page : State
unfolding initial
page = at "/history" (record initial {
  sessions =
      record { id = "s1"; host = "web"; provider = "openai"; title = "Ports"; message_count = 2 }
      ∷ [];
  host = "web";
  selected = "s1";
})

abbrev emptied_reply : Body Data
emptied_reply = record { detail = none; value = nothing }

continue_link-query_value_example :
    (query_value "host" (continue_link page.page) ≡ some (codes "web"))
    × (query_value "chat" (continue_link page.page) ≡ some (codes "s1"))
unfolding page
continue_link-query_value_example = continue_link-query_value page.page
