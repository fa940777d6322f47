-- ===== src/Page/Exclusive.antt =====
-- Pages that have at most one request other than a GET in flight, and are busy while they do: the roles
-- of their handlers, for a page whose `busy` is given. `Sole` has what follows from them.
pub mod Sole
pub mod Handlers
use sysadmin_mcp_assisstant.Prelude.{
  String, Bool, true, false, ◌≡◌, refl, ap, ◌∙◌, sym, Option, none, some,
}
use sysadmin_mcp_assisstant.Task.{Failure, Request, Response, Json, Task, branch, json, expect, ok}
use sysadmin_mcp_assisstant.Task.Roles.{Roles, Lawful, Plays, Plays-expect}
use sysadmin_mcp_assisstant.Http.{World, Body, visit, on_browser, api_fetch}
use sysadmin_mcp_assisstant.Http.Roles.{Blind, Plays-api_fetch}

-- A handler that has posted, and any other.
pub data Role : Type 0 where
  working other : Role

-- Only a handler that works posts.
abbrev pub May : Role → Request → Type 0
May working r = Unit
May other r = r.verb ≡ "GET"

abbrev pub Apart : Role → Role → Type 0
Apart working working = ⊥
Apart j k = Unit

pub rest-Apart : (k : Role) → Apart other k
rest-Apart working = tt
rest-Apart other = tt

pub Apart-sym : (k j : Role) → Apart k j → Apart j k
Apart-sym working working a = a
Apart-sym working other a = tt
Apart-sym other working a = tt
Apart-sym other other a = tt

module _ {P : Type 0} (busy : P → Bool) where
  -- A handler that works keeps the page busy; no other handler changes whether it is.
  abbrev pub Holds : Role → World P → Type 0
  Holds working s = busy s.page ≡ true
  Holds other s = Unit

  abbrev pub Does : Role → World P → World P → Type 0
  Does working s s' = Unit
  Does other s s' = busy s'.page ≡ busy s.page

  abbrev pub Begins : Role → World P → World P → Type 0
  Begins working s s' = busy s.page ≡ false
  Begins other s s' = busy s'.page ≡ busy s.page

  Does-nothing : (k : Role) (s : World P) → Holds k s → Does k s s
  Does-nothing working s h = tt
  Does-nothing other s h = refl

  Does-stands : (k j : Role) (s s' : World P) → Apart k j → Does k s s' → Holds j s → Holds j s'
  Does-stands working working s s' a d h = absurd a
  Does-stands other working s s' a d h = d ∙ h
  Does-stands k other s s' a d h = tt

  Begins-stands : (k j : Role) (s s' : World P) → Begins k s s' → Holds j s → Apart j k × Holds j s'
  Begins-stands working working s s' b h = absurd (cc)
  Begins-stands working other s s' b h = (tt, tt)
  Begins-stands other working s s' b h = (tt, b ∙ h)
  Begins-stands other other s s' b h = (tt, tt)

  Holds-visit :
      (k : Role) (to : String) (w : World P) → Holds k w → Holds k (on_browser (visit to) w)
  Holds-visit working to w h = h
  Holds-visit other to w h = h

  Does-visit :
      (k : Role) (to : String) (w v : World P) → Does k w v → Does k w (on_browser (visit to) v)
  Does-visit working to w v d = tt
  Does-visit other to w v d = d

  module _ {D : Type 0} where
    abbrev pub roles : Roles (World P) (Body D)
    roles = record {
      Role = Role;
      rest = other;
      Invariant = λ s. Unit;
      Holds = Holds;
      Does = Does;
      Begins = Begins;
      May = May;
      Apart = Apart;
      Honest = λ r b. Unit;
    }

    pub lawful : Lawful roles
    lawful = record {
      rest_holds = λ s. tt;
      rest_apart = rest-Apart;
      apart_sym = Apart-sym;
      does_nothing = Does-nothing;
      does_stands = Does-stands;
      begins_stands = Begins-stands;
    }

    pub blind : (k : Role) → Blind roles k
    blind k = record {
      invariant = λ to w i. tt;
      holds = Holds-visit k;
      does = Does-visit k;
      does_nothing = Does-nothing k;
    }

    -- Code that does not post, and code of a handler that has.
    abbrev pub Calm : World P → Task (World P) (Body D) → World P → Type 0
    Calm = Plays roles (Does other) other

    abbrev pub Works : World P → Task (World P) (Body D) → World P → Type 0
    Works = Plays roles (Does working) working

    -- A GET, and the code that goes on with its answer.
    pub Calm-get :
        (path : String) (k : Response → Task (World P) (Body D))
        (e : Failure → Task (World P) (Body D)) (base s : World P)
        → Does other base s
        → ((r : Response) (b s' : World P)
            → r.request.verb ≡ "GET"
            → Does other b s'
            → Calm b (k r) s')
        → ((f : Failure) (z : World P) → Calm z (e f) z)
        → Calm base (api_fetch path none none k e) s
    Calm-get path k e base s d goes fails =
        Plays-api_fetch roles other (blind other) (Does other) path none none k e base s tt tt d
          refl (λ r b s' asked _ _ d'. goes r b s' (ap (λ (q : Request). q.verb) asked) d')
          (λ f z _ _. fails f z)

    -- The body of its answer, and the value that it holds.
    pub Calm-value :
        {A : Type 0} (r : Response) (of : D → Option A) (k : A → Task (World P) (Body D))
        (e : Failure → Task (World P) (Body D)) (b s : World P)
        → r.request.verb ≡ "GET"
        → Does other b s
        → ((a : A) (z : World P) → Calm z (k a) z)
        → ((f : Failure) (z : World P) → Calm z (e f) z)
        → Calm b (json r.request (λ x. expect (of x.value) k e) e) s
    Calm-value r of k e b s got d goes fails = (
      (tt, tt, d),
      got,
      λ x u _ _ _.
          Plays-expect roles (Does other) other (of x.value) k e u u (λ a _. goes a u)
            (λ f. fails f u),
      λ f u _ _. fails f u,
    )

    -- A GET that has to be answered with `ok`, for a value.
    pub Calm-read :
        {A : Type 0} (path : String) (of : D → Option A) (k : A → Task (World P) (Body D))
        (e : Failure → Task (World P) (Body D)) (bad : Task (World P) (Body D)) (base s : World P)
        → Does other base s
        → ((a : A) (b t : World P) → Does other b t → Calm b (k a) t)
        → ((f : Failure) (b t : World P) → Does other b t → Calm b (e f) t)
        → ((b t : World P) → Does other b t → Calm b bad t)
        → Calm base
            (api_fetch path none none
              (λ r. branch (ok r) (json r.request (λ x. expect (of x.value) k e) e) bad)
              e)
            s
    Calm-read path of k e bad base s d goes fails not_ok =
        Calm-get path _ e base s d
          (λ r b t asked d'. (
            λ _.
                Calm-value r of k e b t asked d' (λ a u. goes a u u refl) (λ f u. fails f u u refl),
            λ _. not_ok b t d',
          ))
          (λ f u. fails f u u refl)

    -- The first request of a handler that works: the page was not busy, and is now.
    pub Works-post :
        (path : String) (body : Option Json) (k : Response → Task (World P) (Body D))
        (e : Failure → Task (World P) (Body D)) (base s : World P)
        → busy base.page ≡ false
        → busy s.page ≡ true
        → ((r : Response) (b s' : World P) → busy s'.page ≡ true → Works b (k r) s')
        → ((f : Failure) (z : World P) → busy z.page ≡ true → Works z (e f) z)
        → Plays roles (Begins working) working base (api_fetch path (some "POST") body k e) s
    Works-post path body k e base s idle on goes fails =
        Plays-api_fetch roles working (blind working) (Begins working) path (some "POST") body k e
          base s tt on idle tt (λ r b s' _ _ h _. goes r b s' h) (λ f z _ h. fails f z h)
