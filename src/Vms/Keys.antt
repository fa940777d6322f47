-- ===== src/Vms/Keys.antt =====
-- The host keys of ui/app/vms/page.tsx: what is done with a key that was shown.
use sysadmin_mcp_assisstant.Prelude.{Bool, false, ◌≡◌, refl, Option, none, some, sym}
use mathlib.Core.Path.{subst}
use sysadmin_mcp_assisstant.Task.{start}
use sysadmin_mcp_assisstant.Task.Outcome.{Anything, Ensures}
use sysadmin_mcp_assisstant.Http.Ensured.{Ensures-api_fetch}
use sysadmin_mcp_assisstant.Vms.{Host, Pending, Vms, State, enrol, added, decide_on, decide}

-- From where the code resumed, the VMs and the pending key stay.
abbrev pub Untouched : State → State → Type 0
Untouched b s = (s.page.hosts ≡ b.page.hosts) × (s.page.pending ≡ b.page.pending)

pending-enrol : (h : Option Host) (v : Vms) → (enrol h v).pending ≡ v.pending
pending-enrol none v = refl
pending-enrol (some h) v = refl

-- The decision on a key that is shown.
decide_on_lem :
    (trust : Bool) (p : Pending) (s : State)
    → Ensures Untouched Anything
        (λ _ s'. (s'.page.pending ≡ none) × (s'.page.busy ≡ false))
        s
        (start (decide_on (some p) trust))
        s
decide_on_lem trust p s =
    Ensures-api_fetch Untouched Anything _ (λ _ _ _ h. h) (λ _. (refl, refl)) _ _ _ _ _ s _
      (refl, refl)
      (λ r b s' _ _ h. (
        h,
        λ x u _. (λ _. (pending-enrol (added x.value) _, refl), λ _. (refl, refl)),
        λ f u _. (refl, refl),
      ))
      (λ _ _ _. (refl, refl))

-- Whatever the backend answers to a decision on a key that is shown, and whatever happens in
-- between, the handler leaves the VMs and the key alone while it waits, and at its end no key is
-- shown and the page is not busy.
pub decide_clears_key :
    (trust : Bool) (p : Pending) (s : State)
    → s.page.pending ≡ some p
    → Ensures Untouched Anything
        (λ _ s'. (s'.page.pending ≡ none) × (s'.page.busy ≡ false))
        s
        (start (decide trust s.page))
        s
unfolding decide
decide_clears_key trust p s shown =
    subst
      (λ o.
        Ensures Untouched Anything (λ _ s'. (s'.page.pending ≡ none) × (s'.page.busy ≡ false)) s
          (start (decide_on o trust)) s)
      (sym shown) (decide_on_lem trust p s)
