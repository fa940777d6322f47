-- ===== src/Vms/Answers.antt =====
-- What answers come to in ui/app/vms/page.tsx: to a removal and to a classification.
use sysadmin_mcp_assisstant.Prelude.{
  ℕ, false, not, filter, map, ◌&&◌, ◌||◌, ◌==◌, [], ◌∷◌, some, none, eqb, leb, ltb, if◌then◌else◌,
  or_else, ◌≡◌, refl, sym,
}
use mathlib.Core.Path.{subst}
use sysadmin_mcp_assisstant.Prelude.Text.{concat, replace_first}
use sysadmin_mcp_assisstant.Task.{Failure, rejected, message_of, start}
use sysadmin_mcp_assisstant.Task.{Request, text, object, field, close, drive}
use sysadmin_mcp_assisstant.Task.Sends.{SendsOnce}
use sysadmin_mcp_assisstant.Http.Sends.{SendsOnce-api_fetch}
use sysadmin_mcp_assisstant.Task.Pool.{replies, response, run}
use sysadmin_mcp_assisstant.Task.Answered.{Answered-run}
use sysadmin_mcp_assisstant.Http.{Browser, Body, api_fetch, request_of}
use sysadmin_mcp_assisstant.Http.Replied.{Answered-api_fetch}
use sysadmin_mcp_assisstant.Vms.{Host, Classification, Data, State, classify_as, classify}

-- Where the answer is `ok`, no VM of that name is listed any more, and every other is.
abbrev pub removed : Host → ℕ → Body Data → State → State
removed host st d s =
    if leb 200 st && ltb st 300
    then record s {
      page = record s.page {
        removing = "";
        error = "";
        hosts = filter (λ (item : Host). not (item.name == host.name)) s.page.hosts;
        notice =
            concat
              (host.name ∷ " was removed from Evesdropctl. The VM itself was not changed." ∷ []);
      };
    }
    else record s {
      page = record s.page {
        removing = "";
        error = or_else d.detail "Could not remove VM.";
        notice = "";
      };
    }

-- The request to remove a VM.
abbrev pub removing : Host → Browser → Request
removing host =
    request_of "/api/hosts/remove" (some "POST")
      (some (object (field "name" (text host.name) close)))

-- Where the answer is `ok`, exactly the VMs of that name have the new environment.
abbrev pub classified : Classification → ℕ → Body Data → State → State
classified k st d s =
    if leb 200 st && ltb st 300
    then record s {
      page = record s.page {
        busy = false;
        error = "";
        hosts =
            map
              (λ (item : Host).
                if item.name == k.host.name
                then record item { environment = k.environment }
                else item)
              s.page.hosts;
        notice = concat (
            k.host.name
            ∷ " is now classified as "
            ∷ replace_first b'_' " " k.environment
            ∷ "."
            ∷ []);
        classification = none;
      };
    }
    else record s {
      page = record s.page {
        busy = false;
        error = or_else d.detail "Could not classify VM.";
        notice = "";
      };
    }

-- The request to classify a VM, with the operator's password.
abbrev pub classifying : Classification → Browser → Request
classifying k = request_of "/api/hosts/classify" (some "POST") (
    some (
      object (
        field "name" (text k.host.name)
          (field "environment" (text k.environment) (field "password" (text k.password) close)))))

classify-SendsOnce :
    (k : Classification) (s : State)
    → s.page.classification ≡ some k
    → SendsOnce (drive (start (classify s.page)) s).1 (classifying k s.browser)
unfolding classify drive
classify-SendsOnce k s shown =
    subst (λ o. SendsOnce (drive (start (classify_as o)) s).1 (classifying k s.browser)) (sym shown)
      (SendsOnce-api_fetch _ _ _ _ (λ r. (λ x. (tt, tt), λ f. tt)) (λ f. tt) _ _)

classify_replied :
    (k : Classification) (st : ℕ) (d : Body Data) (s : State)
    → eqb st 401 || eqb st 403 ≡ false
    → run (start (classify_as (some k))) (replies st d) s ≡ classified k st d s
classify_replied k st d s other =
    Answered-run (λ s'. s' ≡ classified k st d s) (replies st d) (start (classify_as (some k))) s
      (Answered-api_fetch _ st d other _ _ _ _ _ _ (λ fine. rw fine refl, λ bad. rw bad refl))

classify_rejected :
    (k : Classification) (f : Failure) (s : State)
    → run (start (classify_as (some k))) (response (rejected f) ∷ []) s ≡ record s {
      page = record s.page {
        busy = false;
        error = message_of f "Could not classify VM.";
        notice = "";
      };
    }
unfolding run api_fetch
classify_rejected k f s = refl

-- Where the form shows a classification, one POST is sent, whose body is the VM's name, the
-- environment and the password, and nothing but GETs after it, whatever is answered; and, with
-- nothing in between: where the answer has another status than 401 and 403, exactly the VMs of that
-- name have the new environment and the form is closed if it is `ok`, and its detail is shown and
-- the list kept otherwise; where the request is rejected, its message is shown and the list kept.
-- In each case the page is not busy and nothing else but the notice changes.
pub classify_answered :
    (k : Classification) (st : ℕ) (d : Body Data) (f : Failure) (s : State)
    → s.page.classification ≡ some k
    → eqb st 401 || eqb st 403 ≡ false
    → SendsOnce (drive (start (classify s.page)) s).1 (classifying k s.browser)
      × (run (start (classify s.page)) (replies st d) s ≡ classified k st d s)
      × (run (start (classify s.page)) (response (rejected f) ∷ []) s ≡ record s {
        page = record s.page {
          busy = false;
          error = message_of f "Could not classify VM.";
          notice = "";
        };
      })
unfolding classify
classify_answered k st d f s shown other = (
  classify-SendsOnce k s shown,
  subst (λ o. run (start (classify_as o)) (replies st d) s ≡ classified k st d s) (sym shown)
      (classify_replied k st d s other),
  subst
      (λ o. run (start (classify_as o)) (response (rejected f) ∷ []) s ≡ record s {
        page = record s.page {
          busy = false;
          error = message_of f "Could not classify VM.";
          notice = "";
        };
      })
      (sym shown) (classify_rejected k f s),
)
