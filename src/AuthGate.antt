-- ===== src/AuthGate.antt =====
-- ui/components/auth-gate.tsx: nothing of a page is shown until the session has been verified. An
-- effect runs on the first render and whenever the path changes; its `active` is here the question
-- whether its number is still that of the latest run.
pub mod Verdict
pub mod Runs
pub mod Admission
pub mod Always
pub mod Offered
pub mod Settles
use sysadmin_mcp_assisstant.Prelude.{
  ℕ, suc, String, Bool, true, false, ◌&&◌, not, List, [], ◌∷◌, ◌++◌, Option, none, some, eqb, ◌==◌,
  when, if◌then◌else◌,
}
use sysadmin_mcp_assisstant.Prelude.Text.{concat, includes, decimal}
use sysadmin_mcp_assisstant.Task.{
  error, Request, Code, ok, pure, throw, update, state, ◌>>=◌, ◌>>◌, ite, expect, await_fetch,
  await_json, attempt,
}
use sysadmin_mcp_assisstant.View.{Widget, text, button, spinner}
use sysadmin_mcp_assisstant.Http.{Browser, World, Body, api, on_browser}
use sysadmin_mcp_assisstant.Page.{set_page, store_csrf, go_to}

pub record Gate : Type 0 where
  pub ready : Bool
  pub offline : Bool
  -- how often the effect has run or been cleaned up
  pub runs : ℕ

-- `Identity`
pub data Data : Type 0 where
  nothing : Data
  identity : String → Bool → Data

abbrev pub identity_of : Data → Option (String × Bool)
identity_of nothing = none
identity_of (identity token must) = some (token, must)

abbrev pub State : Type 0
State = World Gate

abbrev Reads : Type 0 → Type 0
Reads A = Code State (Body Data) A

abbrev pub me_request : Browser → Request
me_request b = record {
  path = concat (api b ∷ "/api/auth/me" ∷ []);
  verb = "GET";
  csrf = none;
  body = none;
}

abbrev pub open_gate : Reads (Unit {0})
open_gate = set_page (λ g. record g { ready = true })

-- `if (!active) return; …` of run `n`
abbrev pub if_active : ℕ → Reads (Unit {0}) → Reads (Unit {0})
if_active n m = do s ← state; ite (eqb n s.page.runs) m (pure tt)

-- What follows the identity, on the page at `path`.
abbrev pub admit : String → Bool → Reads (Unit {0})
admit path must =
    ite (must && not (path == "/change-password")) (go_to "/change-password")
      (ite (path == "/login") (go_to (if must then "/change-password" else "/")) open_gate)

-- The effect, on the page at `path`.
unfoldable pub verify : String → Reads (Unit {0})
verify path = do
  set_page (λ g. record g { runs = suc g.runs; ready = false; offline = false })
  w ← state
  let n = w.page.runs
  attempt
      (do
        response ← await_fetch (me_request w.browser)
        if_active n (
            ite (eqb response.status 401)
              (do
                update (on_browser (λ b. record b { csrf = none }))
                ite (not (path == "/login")) (go_to "/login") open_gate)
              (do
                ite (ok response) (pure tt) (
                    throw (
                      error
                        (concat ("Authentication check returned " ∷ decimal response.status ∷ []))))
                body ← await_json response
                who ← expect (identity_of body.value)
                if_active n (do store_csrf who.0; admit path who.1))))
      (λ _.
        if_active n
          (ite (path == "/login") open_gate (set_page (λ g. record g { offline = true }))))

-- The effect's cleanup.
unfoldable pub clean_up : Reads (Unit {0})
clean_up = set_page (λ g. record g { runs = suc g.runs })

-- `children` and `<AuthorityControl />`, or the splash with its `retry`.
unfoldable pub gate_view :
    {E : Type 0} → List (Widget E) → List (Widget E) → E → String → Gate → List (Widget E)
gate_view children authority retry path g =
    if g.ready
    then children ++ when (not (includes ("/login" ∷ "/change-password" ∷ []) path)) authority
    else when (not g.offline) (spinner ∷ [])
      ++ text "Evesdropctl"
        ∷ text (
            if g.offline
            then "The secure backend is unavailable."
            else "Verifying your secure session…")
        ∷ when g.offline (button "Retry connection" false retry ∷ [])
