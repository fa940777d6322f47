-- ===== src/Scripts/Reviewed.antt =====
-- What is under review in `ScriptPage` of ui/app/dynamic/page.tsx while handlers run, up to their ends.
use sysadmin_mcp_assisstant.Prelude.{ℕ, Option, none, some, ◌≡◌, refl, ◌⊎◌, inl}
use sysadmin_mcp_assisstant.Task.{Failure, Task, error, done, message_of}
use sysadmin_mcp_assisstant.Page.{set_page}
use sysadmin_mcp_assisstant.Task.Outcome.{Ensures}
use sysadmin_mcp_assisstant.Http.{Body}
use sysadmin_mcp_assisstant.Scripts.{Job, Scripts, State, Data, generate, if_mounted}
use sysadmin_mcp_assisstant.Scripts.Screen.{Act, ask, first_render}

-- The VM, the script, its verifier and the time limit of the page are those of the job.
abbrev pub Matches : Scripts → Option Job → Type 0
Matches p none = Unit
Matches p (some j) =
    (p.host ≡ j.host)
    × (p.script ≡ j.script)
    × (p.verification ≡ j.verification)
    × (p.seconds ≡ j.timeout_seconds)

-- They are as they were, or no job is shown, or the one that is shown has these.
abbrev pub Reviewed : State → State → Type 0
Reviewed b s =
    ((s.page.host ≡ b.page.host)
      × (s.page.script ≡ b.page.script)
      × (s.page.verification ≡ b.page.verification)
      × (s.page.seconds ≡ b.page.seconds))
    ⊎ Matches s.page s.page.job

-- While a draft is generated, and while the page loads, no job is shown where the handler resumes.
abbrev pub Alone : Act → State → Type 0
Alone (ask generate) s = s.page.job ≡ none
Alone first_render s = s.page.job ≡ none
Alone e s = Unit

-- Where the handler first waits for a draft, no job is shown.
abbrev pub Cleared : Act → State → Type 0
Cleared (ask generate) s = s.page.job ≡ none
Cleared e s = Unit

same : (s : State) → Reviewed s s
same s = inl (refl, refl, refl, refl)

-- Requests of a handler that generates nothing.
module _ (Rely : State → Type 0) where
  abbrev Sure : State → Task State (Body Data) → State → Type 0
  Sure = Ensures Reviewed Rely Reviewed

-- What follows a failure of the effect.
abbrev mount_failed : ℕ → Failure → Task State (Body Data)
mount_failed n x =
    if_mounted n
      (set_page (λ (q : Scripts). record q { error = message_of x "Could not load page." }))
      (λ _. done) (λ _. done)
