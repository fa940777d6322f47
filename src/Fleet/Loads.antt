-- ===== src/Fleet/Loads.antt =====
-- The load of ui/app/fleet/[host]/page.tsx.
use sysadmin_mcp_assisstant.Prelude.{String, none, some, or_else, ◌≡◌, refl, ◌⊎◌, inl, inr}
use sysadmin_mcp_assisstant.Task.{Failure, error, message_of, Code, start, ◌>>=◌, expect, attempt}
use sysadmin_mcp_assisstant.Task.Outcome.{Anything, Ensures, Ensures-expect}
use sysadmin_mcp_assisstant.Http.{Body, api_fetch}
use sysadmin_mcp_assisstant.Http.Ensured.{Ensures-api_fetch}
use sysadmin_mcp_assisstant.Page.{set_page, parsed}
use sysadmin_mcp_assisstant.Fleet.Details.{
  Detail, Details, Data, State, identity_of, detail_of, history_path, mount,
}

abbrev Same : State → State → Type 0
Same b s = s.page ≡ b.page

-- The page is as it was, or it shows a detail, or an error.
abbrev pub Loaded : State → State → Type 0
Loaded b s =
    (s.page ≡ b.page)
    ⊎ ((d : Detail) × (s.page ≡ record b.page { detail = some d }))
    ⊎ ((f : Failure) × (s.page
          ≡ record b.page { error = message_of f "Could not load host history." }))

abbrev failed : Failure → Details → Details
failed f p = record p { error = message_of f "Could not load host history." }

-- The answer to the second request, whose body shows the detail.
abbrev show : String → Code State (Body Data) (Unit {0})
show host = do
  response ← api_fetch (history_path host) none none
  data_ ← parsed response "Host not found."
  detail ← expect (detail_of data_.value)
  set_page (λ p. record p { detail = some detail })

show_ends :
    (host : String) (b s : State)
    → Same b s
    → Ensures Same Anything Loaded b (start (attempt (show host) (λ f. set_page (failed f)))) s
show_ends host b s p =
    Ensures-api_fetch Same Anything Loaded (λ _ _ _ h. h) (λ _. refl) _ _ _ _ _ b s p
      (λ r c t _ _ h. (
        h,
        λ x u _. (
          λ _.
              Ensures-expect Same Anything Loaded (detail_of x.value) _ _ u u
                (λ d _. inr (inl (d, refl))) (λ f. inr (inr (f, refl))),
          λ _. inr (inr (error (or_else x.detail "Host not found."), refl)),
        ),
        λ f u _. inr (inr (f, refl)),
      ))
      (λ f u _. inr (inr (f, refl)))

-- Whatever the backend answers, and whatever happens in between, the page shows nothing new while the
-- load waits, and the load ends with the page as it was when it last resumed, or with that page and a
-- detail, or with that page and the failure's message.
pub mount_ends : (host : String) (s : State) → Ensures Same Anything Loaded s (start (mount host)) s
unfolding mount
mount_ends host s =
    Ensures-api_fetch Same Anything Loaded (λ _ _ _ h. h) (λ _. refl) _ _ _ _ _ s s refl
      (λ r b t _ _ h. (
        λ _. inl h,
        λ _. (
          h,
          λ x u _.
              Ensures-expect Same Anything Loaded (identity_of x.value) _ _ u u
                (λ _ _. show_ends host u _ refl) (λ f. inr (inr (f, refl))),
          λ f u _. inr (inr (f, refl)),
        ),
      ))
      (λ f u _. inr (inr (f, refl)))
