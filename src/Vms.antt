-- ===== src/Vms.antt =====
-- ui/app/vms/page.tsx: enrolment, classification and removal of VMs. A host key that the backend
-- has read is shown first, and the operator decides whether to trust it. The screen is in
-- `Screen`; the browser's `confirm` is an argument of the handler, and `Number` of a text, as
-- `JSON.stringify` writes it, the argument `to_number`.
pub mod Answers
pub mod Shapes
pub mod Screen
pub mod Keys
pub mod Fleet
unfoldable pub use sysadmin_mcp_assisstant.Vms.Shapes.{initial}
pub use sysadmin_mcp_assisstant.Vms.Shapes.{
  Host, Pending, Form, blank_form, Classification, Vms, Data, pending_of, added, nothing, identity,
  host_rows, discovered, decision,
}
use sysadmin_mcp_assisstant.Vms.Shapes.{identity_of, hosts_of}
use sysadmin_mcp_assisstant.Prelude.{
  ℕ, String, Bool, true, false, ◌&&◌, not, List, [], ◌∷◌, ◌++◌, Option, none, some, map, filter,
  ◌==◌, if◌then◌else◌,
}
use sysadmin_mcp_assisstant.Prelude.Text.{is_blank, concat, trim, split, replace_first}
use sysadmin_mcp_assisstant.Task.{
  Failure, error, other, message_of, Json, texts, text, number, flag, array, object, field, close,
  Code, ok, pure, throw, ◌>>=◌, ◌>>◌, ite, expect, await_json, attempt, start, Task,
}
use sysadmin_mcp_assisstant.Http.{World, Body, api_fetch}
use sysadmin_mcp_assisstant.Page.{set_page, require_ok, store_csrf, parsed, guarded}

abbrev pub State : Type 0
State = World Vms

abbrev Reads : Type 0 → Type 0
Reads A = Code State (Body Data) A

unfoldable pub load : Reads (Unit {0})
load = do
  me ← api_fetch "/api/auth/me" none none
  ite (not (ok me)) (pure tt) (do
    body ← await_json me
    token ← expect (identity_of body.value)
    store_csrf token
    response ← api_fetch "/api/hosts" none none
    require_ok (ok response) "Could not load managed VMs."
    hosts_body ← await_json response
    hosts ← expect (hosts_of hosts_body.value)
    set_page (λ v. record v { hosts = hosts }))

unfoldable pub mount : Reads (Unit {0})
mount = attempt load (λ _. set_page (λ v. record v { error = "The local agent API is offline." }))

-- `update(key, value)`
pub data Key : Type 0 where
  key_name key_hostname key_port key_username key_password key_logs key_jobs key_environment : Key

unfoldable pub put : Key → String → Form → Form
put key_name x f = record f { name = x }
put key_hostname x f = record f { hostname = x }
put key_port x f = record f { port = x }
put key_username x f = record f { username = x }
put key_password x f = record f { password = x }
put key_logs x f = record f { allowed_logs = x }
put key_jobs x f = record f { backup_jobs = x }
put key_environment x f = record f { environment = x }

-- `s.split('\n').map((x) => x.trim()).filter(Boolean)`
unfoldable pub lines_of : String → List String
lines_of s = filter (λ x. not (is_blank x)) (map trim (split 10 s))

unfoldable pub discover_body : (String → Json) → Form → Json
unfolding lines_of
discover_body to_number f = object (
    field "name" (text f.name) (
      field "hostname" (text f.hostname) (
        field "port" (to_number f.port) (
          field "username" (text f.username) (
            field "password" (text f.password) (
              field "allowed_logs" (array (texts (lines_of f.allowed_logs))) (
                field "restart_services" (array (texts (lines_of f.restart_services))) (
                  field "backup_jobs" (array (texts (lines_of f.backup_jobs))) (
                    field "environment" (text f.environment) (
                      field "cpu_threshold" (number 90)
                        (field "memory_threshold" (number 90) close)))))))))))

-- `discover` of the render that shows `c`, and so the handlers below.
unfoldable pub discover : (String → Json) → Vms → Reads (Unit {0})
discover to_number c = do
  set_page (λ v. record v { busy = true; error = ""; notice = "" })
  guarded
      (do
        response ←
            api_fetch "/api/hosts/discover-key" (some "POST")
              (some (discover_body to_number c.form))
        data_ ← parsed response "Could not contact the SSH server."
        found ← expect (pending_of data_.value)
        set_page (λ v. record v { pending = some found }))
      (λ f v. record v { error = message_of f "Connection failed." })
      (λ v. record v { busy = false })

abbrev pub decision_body : Pending → Bool → Json
decision_body p trust = object (field "token" (text p.token) (field "trust" (flag trust) close))

-- `setHosts`, `setForm` and `setNotice` where a VM was added.
abbrev pub enrol : Option Host → Vms → Vms
enrol none v = v
enrol (some h) v = record v {
  hosts = v.hosts ++ h ∷ [];
  form = blank_form;
  notice = concat (h.name ∷ " was added to the managed fleet." ∷ []);
}

abbrev pub decision_error : Failure → String
decision_error (error m) =
    concat
      (m ∷ " Fetch the host key again and verify the new fingerprint before accepting it." ∷ [])
decision_error other = "Could not save this VM. Fetch the host key again before accepting it."

abbrev pub decide_on : Option Pending → Bool → Reads (Unit {0})
decide_on none trust = pure tt
decide_on (some p) trust = do
  set_page (λ v. record v { busy = true; error = "" })
  guarded
      (do
        response ← api_fetch "/api/hosts/decide-key" (some "POST") (some (decision_body p trust))
        data_ ← parsed response "Host-key decision failed."
        set_page (λ v. record v { pending = none })
        set_page (enrol (added data_.value)))
      (λ f v. record v { pending = none; error = decision_error f })
      (λ v. record v { busy = false })

unfoldable pub decide : Bool → Vms → Reads (Unit {0})
decide trust c = decide_on c.pending trust

unfoldable pub remove : Host → Bool → Reads (Unit {0})
remove host agreed = ite (not agreed) (pure tt) (do
  set_page (λ v. record v { removing = host.name; error = ""; notice = "" })
  guarded
      (do
        response ←
            api_fetch "/api/hosts/remove" (some "POST")
              (some (object (field "name" (text host.name) close)))
        answered ← parsed response "Could not remove VM."
        set_page (λ v. record v {
          hosts = filter (λ item. not (item.name == host.name)) v.hosts;
          notice =
              concat
                (host.name ∷ " was removed from Evesdropctl. The VM itself was not changed." ∷ []);
        }))
      (λ f v. record v { error = message_of f "Could not remove VM." })
      (λ v. record v { removing = "" }))

abbrev pub reclassify : Classification → Host → Host
reclassify k item =
    if item.name == k.host.name then record item { environment = k.environment } else item

abbrev pub classify_as : Option Classification → Reads (Unit {0})
classify_as none = pure tt
classify_as (some k) = do
  set_page (λ v. record v { busy = true; error = ""; notice = "" })
  guarded
      (do
        response ← api_fetch "/api/hosts/classify" (some "POST") (
            some (
              object (
                field "name" (text k.host.name) (
                  field "environment" (text k.environment)
                    (field "password" (text k.password) close)))))
        answered ← parsed response "Could not classify VM."
        set_page (λ v. record v {
          hosts = map (reclassify k) v.hosts;
          notice = concat (
              k.host.name
              ∷ " is now classified as "
              ∷ replace_first b'_' " " k.environment
              ∷ "."
              ∷ []);
          classification = none;
        }))
      (λ f v. record v { error = message_of f "Could not classify VM." })
      (λ v. record v { busy = false })

unfoldable pub classify : Vms → Reads (Unit {0})
classify c = classify_as c.classification
