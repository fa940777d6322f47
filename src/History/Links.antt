-- ===== src/History/Links.antt =====
-- The link of ui/app/history/page.tsx to a conversation, as ui/app/page.tsx reads it.
use sysadmin_mcp_assisstant.Prelude.{some, ◌≡◌}
use sysadmin_mcp_assisstant.Console.Query.{codes, query_value}
use sysadmin_mcp_assisstant.Console.Query.Addresses.{query_value-encode}
use sysadmin_mcp_assisstant.History.{History}
use sysadmin_mcp_assisstant.History.Screen.{continue_link}

-- The console that the link opens reads from its address the code points of exactly the VM's name and
-- the conversation's id that the history shows, whatever characters they contain.
pub continue_link-query_value :
    (h : History)
    → (query_value "host" (continue_link h) ≡ some (codes h.host))
      × (query_value "chat" (continue_link h) ≡ some (codes h.selected))
continue_link-query_value h = query_value-encode h.host h.selected
