-- ===== src/Backups/Screen.antt =====
-- What `BackupsPage` of ui/app/backups/page.tsx shows, and its handlers.
use sysadmin_mcp_assisstant.Prelude.{
  String, false, ◌||◌, not, List, [], ◌∷◌, ◌++◌, none, some, map, filter, any, when, if◌then◌else◌,
}
use sysadmin_mcp_assisstant.Prelude.Text.{is_blank, concat, or_text, decimal}
use sysadmin_mcp_assisstant.Task.{Task, start}
use sysadmin_mcp_assisstant.View.{Widget, text, alert, spinner, button, choice, input}
use sysadmin_mcp_assisstant.Http.{Body}
use sysadmin_mcp_assisstant.Page.{set_page}
use sysadmin_mcp_assisstant.Backups.{
  Preview, Outcome, Backups, Data, State, jobs_of, has_jobs, mount, choose_host, create_preview,
  execute,
}

pub data Act : Type 0 where
  first_render preview_job confirm_job cancel_job : Act
  pick_host pick_job type_password : String → Act

unfoldable pub form_view : Backups → List (Widget Act)
form_view b =
    text "Run an approved dump"
      ∷ choice "Host" b.host false (map (λ x. (x.host, x.host)) (filter has_jobs b.sets)) pick_host
      ∷ choice "Backup job" b.job false (map (λ x. (x, x)) (jobs_of b.sets b.host)) pick_job
      ∷ input "Re-enter your password" b.password false type_password
      ∷ when b.busy (spinner ∷ [])
    ++ button "Authenticate and preview" (b.busy || is_blank b.job) preview_job ∷ []

unfoldable pub preview_view : Backups → Preview → List (Widget Act)
preview_view b p =
    text "Effect preview"
      ∷ text (concat ("Expires in " ∷ decimal p.expires_in_seconds ∷ "s" ∷ []))
      ∷ text p.effect
      ∷ text "Confirm that the VM has enough free space before starting a large dump."
      ∷ button "Cancel" false cancel_job
      ∷ when b.busy (spinner ∷ [])
    ++ button "Confirm backup" b.busy confirm_job ∷ []

unfoldable pub outcome_view : Outcome → List (Widget Act)
outcome_view o =
    text (if o.verified then "Backup completed" else "Backup failed")
    ∷ text
        (concat (o.job ∷ " on " ∷ o.host ∷ " · exit status " ∷ decimal o.result.exit_status ∷ []))
    ∷ text "Script output"
    ∷ text (or_text o.result.stdout (or_text o.result.stderr "(no output)"))
    ∷ when o.result.truncated (text "Output was truncated at the configured safety limit." ∷ [])

unfoldable pub jobs_view : Backups → List (Widget Act)
unfolding form_view preview_view outcome_view
jobs_view b =
    form_view b
    ++ elim b.preview [ none ↦ [] | some p ↦ preview_view b p ]
    ++ elim b.outcome [ none ↦ [] | some o ↦ outcome_view o ]

unfoldable pub backups_view : Backups → List (Widget Act)
unfolding jobs_view
backups_view b =
    text "Database backups"
      ∷ text "Run fixed, root-approved dump scripts with an audit trail"
      ∷ text "Script paths stay on the VM"
      ∷ text (
          concat (
            "The UI sends only a reviewed job ID. The root-owned host policy maps that ID to "
            ∷ "a fixed script and rejects arbitrary paths, arguments, and shell syntax." ∷ []))
      ∷ when (not (is_blank b.error)) (alert b.error ∷ [])
    ++ (if any has_jobs b.sets
        then jobs_view b
        else text "No backup jobs enabled"
          ∷ text "Enable the database-dump job in the host configuration and VM policy."
          ∷ [])

unfoldable pub handle : Act → Backups → Task State (Body Data)
handle first_render b = start mount
handle preview_job b = start (create_preview b)
handle confirm_job b = start (execute b)
handle cancel_job b = start (set_page (λ (s : Backups). record s { preview = none }))
handle (pick_host h) b = start (choose_host h b)
handle (pick_job j) b = start (set_page (λ (s : Backups). record s { job = j; preview = none }))
handle (type_password x) b = start (set_page (λ (s : Backups). record s { password = x }))
