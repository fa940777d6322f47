-- ===== src/AuthGate/Offered.antt =====
-- What the operator can do behind ui/components/auth-gate.tsx.
use sysadmin_mcp_assisstant.Prelude.{
  String, Bool, false, not, List, [], ◌∷◌, ◌≡◌, refl, ◌⊎◌, inl, inr, when, Bool-cases,
}
use sysadmin_mcp_assisstant.Task.Pool.{Session}
use sysadmin_mcp_assisstant.View.{Widget, spinner, Offers}
use sysadmin_mcp_assisstant.View.Only.{Only, Only-Offers, Only-append, Only-when}
use sysadmin_mcp_assisstant.Http.{Browser, Body}
use sysadmin_mcp_assisstant.AuthGate.{Gate, Data, State, gate_view}
use sysadmin_mcp_assisstant.AuthGate.Admission.{Signed}
use sysadmin_mcp_assisstant.AuthGate.Always.{Runs, shown_admitted}

module _ {E : Type 0} (children authority : List (Widget E)) (retry : E) where
  -- A gate that is shut lets the operator do nothing but retry.
  gate_view-Only :
      (path : String) (g : Gate)
      → g.ready ≡ false
      → Only (λ e. e ≡ retry) (gate_view children authority retry path g)
  unfolding gate_view
  gate_view-Only path g closed = rw closed (
      Only-append (λ e. e ≡ retry) (when (not g.offline) (spinner ∷ [])) _
        (Only-when (λ e. e ≡ retry) (not g.offline) _ tt)
        (Only-when (λ e. e ≡ retry) g.offline _ (λ _. refl, tt)))

  module _ (Real : String → Bool → Type 0) where
    -- From a gate that is shut, with nothing in flight, whatever pages are opened and left, however often
    -- the operator signs out and in whatever order the answers come: where the backend's identities are
    -- those of its sessions, and nothing but the gate and signing out changes the token, anything but a
    -- retry that the gate lets the operator do is done on the sign-in; or with the token of a session
    -- stored, and on the change of the password where that is due; or after signing out, with no token
    -- stored and the browser sent to the sign-in.
    pub gate_view-Signed :
        (e : E) (w : Browser) (g : Gate) (y : Session State (Body Data))
        → g.ready ≡ false
        → Runs Real (record { now = record { browser = w; page = g }; tasks = [] }) y
        → Offers (gate_view children authority retry y.now.browser.path y.now.page) e
        → (e ≡ retry) ⊎ Signed Real y.now.browser
    gate_view-Signed e w g y closed runs o = elim (Bool-cases (y.now.page.ready)) [
      | inl shown ↦ inr (shown_admitted Real w g y closed runs shown)
      | inr shut ↦
          inl
            (Only-Offers (λ x. x ≡ retry) _ e (gate_view-Only y.now.browser.path y.now.page shut) o)
    ]
