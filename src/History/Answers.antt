-- ===== src/History/Answers.antt =====
-- What answers to the deletion of all conversations come to in ui/app/history/page.tsx.
use sysadmin_mcp_assisstant.Prelude.{ℕ, false, ◌&&◌, [], none, leb, ltb, if◌then◌else◌}
use sysadmin_mcp_assisstant.History.{State}

-- Where the answer is `ok`, nothing is listed, selected, shown or remembered.
abbrev pub emptied : ℕ → State → State
emptied st s =
    if leb 200 st && ltb st 300
    then record s {
      browser = record s.browser { session_id = none };
      page = record s.page {
        deleting = false;
        error = "";
        sessions = [];
        selected = "";
        messages = [];
      };
    }
    else record s {
      page = record s.page { deleting = false; error = "Could not delete conversation history." };
    }
