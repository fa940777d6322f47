-- ===== src/Authority/Answers.antt =====
-- What an answer to arming comes to in ui/components/authority-control.tsx.
use sysadmin_mcp_assisstant.Prelude.{ℕ, false, ◌&&◌, some, leb, ltb, if◌then◌else◌, or_else}
use sysadmin_mcp_assisstant.Task.{Request, text, number, texts, array, object, field, close}
use sysadmin_mcp_assisstant.Http.{Browser, Body, request_of}
use sysadmin_mcp_assisstant.Authority.{Authority, Form, Data, State}

-- An answer that is `ok` shows the authority that it holds, closes the form and clears its
-- password; any other shows its detail and leaves the form.
abbrev pub armed : ℕ → Authority → Body Data → State → State
armed st a d s =
    if leb 200 st && ltb st 300
    then record s {
      page = record s.page {
        busy = false;
        error = "";
        authority = some a;
        is_open = false;
        form = record s.page.form { password = "" };
      };
    }
    else record s {
      page = record s.page {
        busy = false;
        error = or_else d.detail "Could not arm authority mode.";
      };
    }

-- The request to arm the mode, the scope and the limits of a form, with its password.
abbrev pub arming : Form → Browser → Request
arming f = request_of "/api/authority/arm" (some "POST") (
    some (
      object (
        field "mode" (text f.mode) (
          field "hosts" (array (texts f.hosts)) (
            field "capabilities" (array (texts f.capabilities)) (
              field "duration_minutes" (number f.duration_minutes) (
                field "recipe_ids" (array (texts f.recipe_ids)) (
                  field "action_budget" (number f.action_budget) (
                    field "concurrency" (number f.concurrency)
                      (field "password" (text f.password) close))))))))))
