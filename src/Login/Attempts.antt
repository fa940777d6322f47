-- ===== src/Login/Attempts.antt =====
-- Attempts to sign in with ui/app/login/page.tsx.
use sysadmin_mcp_assisstant.Prelude.{
  ℕ, String, Bool, false, ◌&&◌, ◌∷◌, some, leb, ltb, if◌then◌else◌, or_else, ◌≡◌, refl, inl, inr,
}
use sysadmin_mcp_assisstant.Task.{start, expect, drive}
use sysadmin_mcp_assisstant.Task.Pool.{replies, Awaits, run}
use sysadmin_mcp_assisstant.Task.Answered.{Answered-run}
use sysadmin_mcp_assisstant.Http.{Body}
use sysadmin_mcp_assisstant.View.{Offers}
use sysadmin_mcp_assisstant.Login.{
  Data, identity, State, login_request, submit, sign_in, login_view, handle,
}

-- What an answer with the status `st` and the body `d`, of the shape of an identity, comes to.
abbrev pub signed_in : ℕ → String → Bool → Body Data → State → State
signed_in st token must d s =
    if leb 200 st && ltb st 300
    then record {
      browser = record s.browser {
        csrf = some token;
        visited = (if must then "/change-password" else "/") ∷ s.browser.visited;
      };
      page = record s.page { busy = false; error = "" };
    }
    else record s {
      page = record s.page { busy = false; error = or_else d.detail "Sign in failed" };
    }

-- With nothing in between and where the body is an identity, an answer that is not `ok` shows the
-- body's detail, stores no token and stays on the page; one that is `ok` stores the token and goes
-- to the console, or to the change of the password where that is due. In both cases the page is not
-- busy at the end.
pub submit_signs_in :
    (st : ℕ) (token : String) (must : Bool) (d : Body Data) (s : State)
    → d.value ≡ identity token must
    → run (start (submit s.page)) (replies st d) s ≡ signed_in st token must d s
unfolding submit expect
submit_signs_in st token must d s who =
    Answered-run (λ s'. s' ≡ signed_in st token must d s) (replies st d) (start (submit s.page)) s
      (λ x. rw (who, x) refl, λ x. rw x refl)

-- The page always lets the operator sign in, by the Enter key, also while an attempt is running,
-- and each time the handler sends the user name and the password once more.
pub sign_in_repeats :
    (s : State)
    → Offers (login_view s.page) sign_in
      × Awaits (drive (handle sign_in s.page) s).1 (login_request s.page s.browser)
unfolding login_view handle submit drive
sign_in_repeats s = (inr (inr (inl refl)), refl)
