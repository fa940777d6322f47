-- ===== src/Execution/Always.antt =====
-- The token that ui/components/mcp-execution-connection.tsx shows, in whatever order the answers come.
use sysadmin_mcp_assisstant.Prelude.{
  String, true, false, not, [], Option, none, some, or_else, when, ◌≡◌, refl, ◌∙◌, ◌⊎◌, inl, inr,
  arith,
}
use sysadmin_mcp_assisstant.Prelude.Text.{is_blank}
use sysadmin_mcp_assisstant.Task.{Request, start}
use sysadmin_mcp_assisstant.Task.Pool.{Session, Reach}
use sysadmin_mcp_assisstant.Task.Roles.{Roles, Lawful, Plays}
use sysadmin_mcp_assisstant.Task.Roles.Casts.{Reach-Fine}
use sysadmin_mcp_assisstant.View.{Offers}
use sysadmin_mcp_assisstant.View.Only.{Only, Only-Offers, Only-append, Only-when}
use sysadmin_mcp_assisstant.Http.{Body}
use sysadmin_mcp_assisstant.Http.Roles.{Blind, Plays-api_fetch}
use sysadmin_mcp_assisstant.Page.Exclusive.{Role, working, other, Apart, rest-Apart, Apart-sym}
use sysadmin_mcp_assisstant.Execution.{
  Connection, Data, State, connect, Act, create, copy, connection_view, handle,
}

-- A connection that is being made keeps the control busy, without a token.
abbrev Holds : Role → State → Type 0
Holds working s = (s.page.busy ≡ true) × (s.page.token ≡ "")
Holds other s = Unit

abbrev Keeps : State → State → Type 0
Keeps s s' = (s'.page.busy ≡ s.page.busy) × (s'.page.token ≡ s.page.token)

abbrev Does : Role → State → State → Type 0
Does working s s' = Unit
Does other s s' = Keeps s s'

abbrev Begins : Role → State → State → Type 0
Begins working s s' = s.page.busy ≡ false
Begins other s s' = Keeps s s'

Does-nothing : (k : Role) (s : State) → Holds k s → Does k s s
Does-nothing working s h = tt
Does-nothing other s h = (refl, refl)

Does-stands : (k j : Role) (s s' : State) → Apart k j → Does k s s' → Holds j s → Holds j s'
Does-stands working working s s' a d h = absurd a
Does-stands other working s s' a d h = (d.0 ∙ h.0, d.1 ∙ h.1)
Does-stands k other s s' a d h = tt

Begins-stands : (k j : Role) (s s' : State) → Begins k s s' → Holds j s → Apart j k × Holds j s'
Begins-stands working working s s' b h = absurd (cc)
Begins-stands working other s s' b h = (tt, tt)
Begins-stands other working s s' b h = (tt, (b.0 ∙ h.0, b.1 ∙ h.1))
Begins-stands other other s s' b h = (tt, tt)

-- A connection can be asked for only while the control is not busy.
abbrev Idle : Connection → Act → Type 0
Idle c create = c.busy ≡ false
Idle c (copy b) = Unit

connection_view-Idle : (c : Connection) → Only (Idle c) (connection_view c)
unfolding connection_view
connection_view-Idle c = (
  λ e. e,
  Only-append (Idle c) (when (not (is_blank c.token)) _) _
      (Only-when (Idle c) (not (is_blank c.token)) _ (λ _. tt, (λ _. tt, tt)))
      (Only-when (Idle c) (not (is_blank c.message)) _ tt),
)

-- `Issued t`: the backend has issued the token `t`.
module _ (Issued : String → Type 0) where
  -- No token is shown, or one that has been issued, and no other is being asked for.
  abbrev pub Safe : Connection → Type 0
  Safe c = (c.token ≡ "") ⊎ ((c.busy ≡ false) × Issued c.token)

  -- The tokens that the backend answers with have been issued.
  abbrev pub Issues : Request → Body Data → Type 0
  Issues r b = (t : String) → b.value.token ≡ some t → Issued t

  abbrev roles : Roles State (Body Data)
  roles = record {
    Role = Role;
    rest = other;
    Invariant = λ s. Safe s.page;
    Holds = Holds;
    Does = Does;
    Begins = Begins;
    May = λ k r. Unit;
    Apart = Apart;
    Honest = Issues;
  }

  lawful : Lawful roles
  lawful = record {
    rest_holds = λ s. tt;
    rest_apart = rest-Apart;
    apart_sym = Apart-sym;
    does_nothing = Does-nothing;
    does_stands = Does-stands;
    begins_stands = Begins-stands;
  }

  blind : Blind roles working
  blind = record {
    invariant = λ to w i. i;
    holds = λ to w h. h;
    does = λ to w v d. tt;
    does_nothing = λ w h. tt;
  }

  issued :
      (t : Option String)
      → ((x : String) → t ≡ some x → Issued x)
      → is_blank (or_else t "") ≡ false
      → Issued (or_else t "")
  issued none honest e = absurd (cc)
  issued (some x) honest e = honest x refl

  Plays-connect :
      (s : State) → s.page.busy ≡ false → Plays roles (Begins working) working s (start connect) s
  unfolding connect
  Plays-connect s idle =
      Plays-api_fetch roles working blind (Begins working) _ _ _ _ _ s _ (inl refl) (refl, refl)
        idle tt
        (λ r b s' _ i h _. (
          (i, h, tt),
          tt,
          λ d u honest v w. (
            λ bad. (inl (w.1), tt),
            λ fine. (inr (refl, issued d.value.token honest (ground (arith, fine))), tt),
          ),
          λ x u v w. (inl (w.1), tt),
        ))
        (λ x z i h. (inl (h.1), tt))

  abbrev pub Happens : State → Act → Type 0
  Happens s a = Offers (connection_view s.page) a

  handle-Plays :
      (a : Act) (s : State)
      → Safe s.page
      → Happens s a
      → (k : Role) × Plays roles (Begins k) k s (handle a s.page) s
  unfolding handle
  handle-Plays create s i o = (
    working,
    Plays-connect s (Only-Offers (Idle s.page) _ create (connection_view-Idle s.page) o),
  )
  handle-Plays (copy true) s i o = (other, (i, (refl, refl)))
  handle-Plays (copy false) s i o = (other, (i, (refl, refl)))

  abbrev pub Runs : Session State (Body Data) → Session State (Body Data) → Type 0
  Runs = Reach Issues Act Happens (λ a s. handle a s.page)

  -- From a control that shows no token, with nothing in flight, after any acts that it offers and any
  -- answers in any order, where the tokens in the backend's answers are ones that it has issued: no
  -- token is shown, or one that has been issued, while no other is being asked for.
  pub token-Safe :
      (w : State) (y : Session State (Body Data))
      → w.page.token ≡ ""
      → Runs (record { now = w; tasks = [] }) y
      → Safe y.now.page
  token-Safe w y blank runs =
      (Reach-Fine roles lawful Happens (λ a s. handle a s.page) handle-Plays
        (record { cast = []; state_Invariant = inl blank; plays = tt }) runs).state_Invariant
