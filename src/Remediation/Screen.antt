-- ===== src/Remediation/Screen.antt =====
-- What `RemediationPage` of ui/app/remediation/page.tsx shows, and its handlers.
use sysadmin_mcp_assisstant.Prelude.{
  String, false, ◌||◌, not, List, [], ◌∷◌, ◌++◌, Option, none, some, map, filter, any, when,
  if◌then◌else◌,
}
use sysadmin_mcp_assisstant.Prelude.Text.{is_blank, concat, join, or_text, decimal}
use sysadmin_mcp_assisstant.Task.{Task, start}
use sysadmin_mcp_assisstant.View.{Widget, text, alert, spinner, button, choice, input}
use sysadmin_mcp_assisstant.Http.{Body}
use sysadmin_mcp_assisstant.Page.{set_page}
use sysadmin_mcp_assisstant.Remediation.{
  Result, Preview, Outcome, Remediation, Data, State, services_of, has_services, mount, choose_host,
  create_preview, execute,
}

pub data Act : Type 0 where
  first_render ask_preview confirm drop : Act
  pick_host pick_service type_password : String → Act

-- `Evidence`
abbrev pub evidence_view : String → Result → List (Widget Act)
evidence_view title r =
    text title
    ∷ text (concat ("$ " ∷ join " " r.command ∷ []))
    ∷ text (or_text r.stdout (or_text r.stderr "(no output)"))
    ∷ []

unfoldable pub form_view : Remediation → List (Widget Act)
form_view p =
    text "Restart an approved service"
      ∷ choice "Host" p.host false (map (λ x. (x.host, x.host)) (filter has_services p.actions))
          pick_host
      ∷ choice "Service" p.service false (map (λ x. (x, x)) (services_of p.actions p.host))
          pick_service
      ∷ input "Re-enter your password" p.password false type_password
      ∷ when p.busy (spinner ∷ [])
    ++ (button "Authenticate and preview" (p.busy || is_blank p.service) ask_preview ∷ [])

unfoldable pub preview_view : Remediation → Option Preview → List (Widget Act)
preview_view p none = []
preview_view p (some q) =
    text "Effect preview"
      ∷ text (concat ("Expires in " ∷ decimal q.expires_in_seconds ∷ "s" ∷ []))
      ∷ text q.effect
      ∷ text "The service can briefly interrupt dependent requests or connections."
      ∷ evidence_view "Current state" q.before
    ++ (button "Cancel" false drop ∷ when p.busy (spinner ∷ [])
        ++ (button "Confirm restart" p.busy confirm ∷ []))

unfoldable pub outcome_view : Option Outcome → List (Widget Act)
outcome_view none = []
outcome_view (some o) =
    text (if o.verified then "Restart verified" else "Verification incomplete")
    ∷ text (concat (o.service ∷ " on " ∷ o.host ∷ []))
    ∷ evidence_view "Post-action state" o.after

unfoldable pub remediation_view : Remediation → List (Widget Act)
remediation_view p =
    text "Approval-gated remediation"
      ∷ text "Narrow maintenance actions with reauthentication and verification"
      ∷ text "No free-form commands"
      ∷ text (
          concat (
            "Only services explicitly allowlisted in each host configuration appear here. Every "
            ∷ "approval is tied to this account, browser session, host, and action; it expires in two minutes "
            ∷ "and works once." ∷ []))
      ∷ when (not (is_blank p.error)) (alert p.error ∷ [])
    ++ (if any has_services p.actions
        then form_view p ++ (preview_view p p.preview ++ outcome_view p.outcome)
        else text "No remediation actions enabled"
          ∷ text (
              concat (
                "This is the secure default. Add exact service names under restart_services in "
                ∷ "a host’s reviewed configuration and deploy the matching host-side policy." ∷ []))
          ∷ [])

unfoldable pub handle : Act → Remediation → Task State (Body Data)
handle first_render p = start mount
handle ask_preview p = start (create_preview p)
handle confirm p = start (execute p)
handle drop p = start (set_page (λ (s : Remediation). record s { preview = none }))
handle (pick_host x) p = start (choose_host x p)
handle (pick_service x) p =
    start (set_page (λ (s : Remediation). record s { service = x; preview = none }))
handle (type_password x) p = start (set_page (λ (s : Remediation). record s { password = x }))
