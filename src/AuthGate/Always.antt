-- ===== src/AuthGate/Always.antt =====
-- Who gets past ui/components/auth-gate.tsx, in whatever order the answers to its runs come.
use native.Mathlib.Nat.{le_refl}
use sysadmin_mcp_assisstant.Prelude.{
  none, ◌⊎◌, ℕ, suc, String, Bool, true, false, ◌&&◌, not, [], some, eqb, ◌==◌, ◌≡◌, refl, ◌∙◌, ap,
  inl, inr, arith, eq_iff,
}
use mathlib.Core.Option.{some-injective}
use sysadmin_mcp_assisstant.Task.{start, update, ◌>>◌, ite}
use sysadmin_mcp_assisstant.Page.{set_page, store_csrf, go_to}
use sysadmin_mcp_assisstant.Task.Pool.{Session, Reach}
use sysadmin_mcp_assisstant.Task.Roles.{Plays, Plays-expect}
use sysadmin_mcp_assisstant.Task.Roles.Casts.{Reach-Fine}
use sysadmin_mcp_assisstant.Http.{Browser, Body, visit, on_browser}
use sysadmin_mcp_assisstant.Http.Roles.{Blind, Plays-api_fetch}
use sysadmin_mcp_assisstant.Navigation.{logout}
use sysadmin_mcp_assisstant.AuthGate.{
  Gate, Data, nothing, identity, identity_of, State, open_gate, if_active, admit, verify, clean_up,
}
use sysadmin_mcp_assisstant.AuthGate.Admission.{
  Event, opens, leaves, signs_out, handle, Role, ended, leaving, running, Holds, Does, Begins,
  Admitted, Signed, Identifies, roles, lawful,
}

-- A gate that is shut shows nothing.
shut : (b : Bool) {A : Type 0} → b ≡ false → b ≡ true → A
shut b e r = absurd (cc)

is_path : (path to : String) → not (path == to) ≡ false → path ≡ to
is_path path to h = (eq_iff path to).0 (ground (arith, h))

-- A run that is not sent to the change of the password.
may_stay :
    (must : Bool) (path at to : String)
    → at ≡ path
    → must && not (path == to) ≡ false
    → (must ≡ false) ⊎ (at ≡ to)
may_stay false path at to e h = inl refl
may_stay true path at to e h = inr (e ∙ is_path path to h)

latest : (n : ℕ) (z : State) → eqb n z.page.runs ≡ true → n ≡ z.page.runs
latest n z x = ground (arith, x)

identity_of-some :
    (d : Data) (who : String × Bool) → identity_of d ≡ some who → d ≡ identity who.0 who.1
identity_of-some nothing who e = absurd (cc)
identity_of-some (identity token must) who e =
    ap (λ (w : String × Bool). identity w.0 w.1) (some-injective _ _ e)

module _ (Real : String → Bool → Type 0) where
  module _ (path : String) (n : ℕ) where
    abbrev k : Role
    k = running n path

    own : (z s : State) → n ≡ z.page.runs → s.page.runs ≡ z.page.runs → Does k z s
    own z s e same = (same, λ other. absurd (other e))

    fails :
        (z : State)
        → Admitted Real z
        → Holds k z
        → Plays
            (roles Real)
            (Does k)
            k
            z
            (start (
              if_active n (
                ite
                  (path == "/login")
                  open_gate
                  (set_page (λ (g : Gate). record g { offline = true })))))
            z
    fails z i h = (
      λ x.
          let e = latest n z x in
          let (closed, at_path) = h.1 e in
          (
            λ y. (λ _. inl (at_path ∙ (eq_iff path "/login").0 y), own z _ e refl),
            λ _. (λ r. shut z.page.ready closed r, own z _ e refl),
          ),
      λ _. (i, (refl, λ _. refl)),
    )

    passes :
        (v : State) (token : String) (must : Bool)
        → Real token must
        → Admitted Real v
        → Holds k v
        → Plays
            (roles Real)
            (Does k)
            k
            v
            (start (if_active n (do store_csrf token; admit path must)))
            v
    passes v token must real i h = (
      λ x.
          let e = latest n v x in
          let (closed, at_path) = h.1 e in
          (
            λ _. (λ r. shut v.page.ready closed r, own v _ e refl),
            λ due. (
              λ _. (λ r. shut v.page.ready closed r, own v _ e refl),
              λ _. (
                λ _. inr (
                    inl (token, must, real, refl, may_stay must path v.browser.path _ at_path due)),
                own v _ e refl,
              ),
            ),
          ),
      λ _. (i, (refl, λ _. refl)),
    )

  Plays-verify :
      (path : String) (s : State)
      → Plays
          (roles Real)
          (Begins (k path (suc s.page.runs)))
          (k path (suc s.page.runs))
          s
          (handle (opens path) s)
          s
  unfolding handle verify
  Plays-verify path s =
      let n : ℕ = suc s.page.runs in
      (
        ((λ r. absurd (cc)), (le_refl _, λ _. (refl, refl)), (omega arith, refl)),
        tt,
        λ a z i h. (
          λ x.
              let e = latest n z x in
              let (closed, at_path) = h.1 e in
              (
                λ _. (
                  λ _. (λ r. shut z.page.ready closed r, own path n z _ e refl),
                  λ y. (λ _. inl (at_path ∙ is_path path "/login" y), own path n z _ e refl),
                ),
                λ _. (
                  λ _. (
                    (i, h, (refl, λ _. refl)),
                    tt,
                    λ b v honest iv hv.
                        Plays-expect (roles Real) (Does (k path n)) (k path n) (identity_of b.value)
                          _ _ v v
                          (λ who eq.
                            passes path n v who.0 who.1
                              (honest who.0 who.1 (identity_of-some b.value who eq)) iv hv)
                          (λ f. fails path n v iv hv),
                    λ f v iv hv. fails path n v iv hv,
                  ),
                  λ _. fails path n z i h,
                ),
              ),
          λ _. (i, (refl, λ _. refl)),
        ),
        λ f z i h. fails path n z i h,
      )

  sent : (to : String) (b : Browser) → Signed Real b → Signed Real (visit to b)
  sent to b (inl at_login) = inl at_login
  sent to b (inr (inl session)) = inr (inl session)
  sent to b (inr (inr (no_token, h))) = inr (inr (no_token, ground (arith, h)))

  -- Navigations that are asked for are nothing to signing out.
  blind : Blind (roles Real) leaving
  blind = record {
    invariant = λ to w i r. sent to w.browser (i r);
    holds = λ to w h. tt;
    does = λ to w v d. d;
    does_nothing = λ w h. (refl, refl);
  }

  left :
      (base s : State)
      → Does leaving base s
      → Plays
          (roles Real)
          (Does leaving)
          leaving
          base
          (start (do
            update (on_browser (λ b. record b { csrf = none }))
            update (on_browser (λ b. record b { session_id = none }))
            go_to "/login"))
          s
  left base s d = (λ _. inr (inr (refl, refl)), d)

  Plays-logout :
      (s : State)
      → Admitted Real s
      → Plays (roles Real) (Begins leaving) leaving s (handle signs_out s) s
  unfolding handle logout
  Plays-logout s i =
      Plays-api_fetch (roles Real) leaving blind (Begins leaving) _ _ _ _ _ s s i tt (refl, refl) tt
        (λ r b s' _ _ _ d. left b s' d) (λ x z _ _. left z z (refl, refl))

  handle-Plays :
      (e : Event) (s : State)
      → Admitted Real s
      → Unit {0}
      → (j : Role) × Plays (roles Real) (Begins j) j s (handle e s) s
  unfolding handle clean_up
  handle-Plays (opens path) s i _ = (running (suc s.page.runs) path, Plays-verify path s)
  handle-Plays leaves s i _ = (ended, (i, omega arith))
  handle-Plays signs_out s i _ = (leaving, Plays-logout s i)

  abbrev pub Runs : Session State (Body Data) → Session State (Body Data) → Type 0
  Runs = Reach (Identifies Real) Event (λ s e. Unit {0}) handle

  -- In every run from a gate that is shut, content is shown only to the `Signed`, where the backend's
  -- identities are those of its sessions.
  pub shown_admitted :
      (w : Browser) (g : Gate) (y : Session State (Body Data))
      → g.ready ≡ false
      → Runs (record { now = record { browser = w; page = g }; tasks = [] }) y
      → y.now.page.ready ≡ true
      → Signed Real y.now.browser
  shown_admitted w g y closed runs =
      (Reach-Fine (roles Real) (lawful Real) (λ s e. Unit {0}) handle handle-Plays
        (record { cast = []; state_Invariant = λ r. shut g.ready closed r; plays = tt })
        runs).state_Invariant
