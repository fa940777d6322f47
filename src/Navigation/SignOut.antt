-- ===== src/Navigation/SignOut.antt =====
-- Signing out with ui/components/app-nav.tsx.
use sysadmin_mcp_assisstant.Prelude.{String, List, ◌∷◌, none, ◌≡◌, refl}
use sysadmin_mcp_assisstant.Task.{start}
use sysadmin_mcp_assisstant.Task.Outcome.{Anything, Anytime, Ensures}
use sysadmin_mcp_assisstant.Http.Ensured.{Ensures-api_fetch}
use sysadmin_mcp_assisstant.Navigation.{State, logout}

-- Nothing of the session is left in the browser's storage, and the last navigation is to the sign-in.
abbrev pub SignedOut : State → State → Type 0
SignedOut b s =
    (s.browser.csrf ≡ none)
    × (s.browser.session_id ≡ none)
    × ((before : List String) × (s.browser.visited ≡ "/login" ∷ before))

-- Whatever the backend answers to the request to sign out, also where it cannot be reached, and
-- whatever happens in between: at the end neither the token nor the conversation is in the browser's
-- storage any more, and the last navigation is to the sign-in.
pub logout_ends :
    (s : State) → Ensures Anytime Anything SignedOut s (start (logout {D = Unit {0}})) s
unfolding logout
logout_ends s =
    Ensures-api_fetch Anytime Anything SignedOut (λ _ _ _ _. tt) (λ _. tt) _ _ _ _ _ s _ tt
      (λ r b s' _ _ _. (refl, refl, (_, refl))) (λ _ _ _. (refl, refl, (_, refl)))
