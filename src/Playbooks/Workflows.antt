-- ===== src/Playbooks/Workflows.antt =====
-- The workflows that ui/app/playbooks/page.tsx runs.
use sysadmin_mcp_assisstant.Prelude.{true, false, none, some, ◌≡◌, refl, ◌⊎◌, inl, inr, Bool-cases}
use sysadmin_mcp_assisstant.Task.{start, drive, done}
use sysadmin_mcp_assisstant.Task.Pool.{Awaits}
use sysadmin_mcp_assisstant.Task.Outcome.{Anything, Ensures}
use sysadmin_mcp_assisstant.Http.{api_fetch, request_of}
use sysadmin_mcp_assisstant.Page.Requests.{Ensures-guarded}
use sysadmin_mcp_assisstant.Playbooks.{State, run_of, run_body, blocked, execute}

-- The run that is shown stays while the handler waits, or is cleared.
abbrev pub Old : State → State → Type 0
Old b s = (s.page.run_ ≡ b.page.run_) ⊎ (s.page.run_ ≡ none)

run_ends :
    (s : State)
    → blocked s.page ≡ false
    → Ensures Old Anything (λ b s'. s'.page.busy ≡ false) s (start (execute s.page)) s
unfolding execute
run_ends s can = (
  λ x. absurd (cc),
  λ _.
      Ensures-guarded Old _ (λ _ _ _ h. h) (λ _. inl refl) _ _ _ _ run_of _ _ _ _ s (inr refl)
        (λ _ _ _ _. refl) (λ _ _ _ _. refl),
)

-- Without a host or a playbook, or while one runs, nothing happens; otherwise one request for the host
-- and the playbook is sent, and whatever the backend answers, and whatever happens in between, at the
-- end the page is not busy.
pub execute_ends :
    (s : State)
    → ((blocked s.page ≡ true) × (drive (start (execute s.page)) s ≡ (s, done)))
      ⊎ ((blocked s.page ≡ false)
          × Awaits
              (drive (start (execute s.page)) s).1
              (request_of "/api/playbooks/run" (some "POST") (some (run_body s.page)) s.browser)
          × Ensures Old Anything (λ b s'. s'.page.busy ≡ false) s (start (execute s.page)) s)
unfolding execute drive api_fetch
execute_ends s = elim (Bool-cases (blocked s.page)) [
  | inl e ↦ inl (e, rw e refl)
  | inr e ↦ inr (e, rw e refl, run_ends s e)
]
