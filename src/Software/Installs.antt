-- ===== src/Software/Installs.antt =====
-- The installations and the plans that ui/app/software/page.tsx asks for.
use sysadmin_mcp_assisstant.Prelude.{
  ℕ, String, Bool, true, false, ◌&&◌, ◌||◌, not, List, [], ◌∷◌, Option, some, none, map, any, All,
  ◌==◌, ◌≡◌, refl, sym, ◌∙◌, ap, ◌⊎◌, inl, inr, eq_iff, eqb, leb, ltb, or_else, if◌then◌else◌,
  arith, Bool-cases,
}
use mathlib.Core.Path.{subst}
use sysadmin_mcp_assisstant.Prelude.Words.{includes-two}
use sysadmin_mcp_assisstant.Prelude.Text.{is_blank, replace_all}
use sysadmin_mcp_assisstant.Task.{start, drive, expect}
use sysadmin_mcp_assisstant.Task.{text, object, field, close}
use sysadmin_mcp_assisstant.Task.Sends.{SendsOnce, Silent-expect}
use sysadmin_mcp_assisstant.Http.Sends.{SendsOnce-api_fetch}
use sysadmin_mcp_assisstant.Task.Pool.{Session, Reach, replies, run}
use sysadmin_mcp_assisstant.Task.Answered.{Answered-run}
use sysadmin_mcp_assisstant.Task.Keeps.{Reach-Fine}
use sysadmin_mcp_assisstant.Task.Outcome.{Anytime}
use sysadmin_mcp_assisstant.Http.{Browser, Body, api_fetch, request_of}
use sysadmin_mcp_assisstant.Http.Replied.{Answered-api_fetch}
use sysadmin_mcp_assisstant.View.{Widget, clickable, clicks}
use sysadmin_mcp_assisstant.Software.{
  Host, Plan, Software, Data, planned, State, initial, is_lab, mount, preview, prepare_install,
  review_of,
}
use sysadmin_mcp_assisstant.Software.Screen.{
  Act, appear, leave, ask_preview, ask_install, pick_host, pick_product, pick_deployment,
  pick_operation, type_version, installable, choices_view, order_view, plan_view, software_view,
  handle,
}
use sysadmin_mcp_assisstant.Software.Planning.{Chosen, OnLab}
use sysadmin_mcp_assisstant.Software.Targets.{Can, Lists, handle-Safe}

-- A click that prepares an installation.
abbrev pub is_install : Act → Bool
is_install ask_install = true
is_install e = false

clickable-steps :
    (f : String → String) (xs : List String)
    → clickable is_install (map (λ x. Widget.text (f x)) xs) ≡ false
clickable-steps f [] = refl
clickable-steps f (x ∷ xs) = clickable-steps f xs

clickable-plan_view : (q : Option Plan) → clickable is_install (plan_view q) ≡ false
unfolding plan_view
clickable-plan_view none = refl
clickable-plan_view (some q) = clickable-steps (replace_all b'_' " ") q.steps

-- The page offers to prepare an installation exactly for a native installation of nginx or Tomcat,
-- with a VM chosen and a version typed, while it is not busy.
pub software_view-installable :
    (p : Software)
    → clickable is_install (software_view p)
      ≡ installable p && not (p.busy || is_blank p.host || is_blank p.version)
unfolding software_view choices_view order_view
software_view-installable p = simp (clicks, clickable-plan_view)

abbrev pub Runs : (Host → Type 0) → Session State (Body Data) → Session State (Body Data) → Type 0
Runs Known = Reach (Lists Known) Act Can (λ e s. handle e s.page)

abbrev pub opened : Browser → Session State (Body Data)
opened w = record { now = record { browser = w; page = initial }; tasks = [] }

reached-OnLab :
    (Known : Host → Type 0) (w : Browser) (y : Session State (Body Data))
    → Runs Known (opened w) y
    → OnLab Known y.now
unfolding initial
reached-OnLab Known w y runs =
    (Reach-Fine (OnLab Known) Anytime (Lists Known) (λ _ _ _ _ _. tt) (λ s _. tt) Can
      (λ e s. handle e s.page) (handle-Safe Known)
      (record { state_I = (tt, inl refl); tasks_wait = tt }) runs).state_I

named :
    (Known : Host → Type 0) (hosts : List Host) (x : String)
    → All (λ (h : Host). (is_lab h ≡ true) × Known h) hosts
    → any (λ (h : Host). h.name == x) hosts ≡ true
    → (h : Host) × Known h × (h.name ≡ x) × (is_lab h ≡ true)
named Known [] x a m = absurd (cc)
named Known (h ∷ hs) x a m = elim (Bool-cases (h.name == x)) [
  | inl e ↦ (h, a.0.1, (eq_iff h.name x).0 e, a.0.0)
  | inr e ↦ named Known hs x a.1 (sym (ap (λ b. b || any (λ (k : Host). k.name == x) hs) e) ∙ m)
]

lab_named :
    (Known : Host → Type 0) (hosts : List Host) (x : String)
    → All (λ (h : Host). (is_lab h ≡ true) × Known h) hosts
    → is_blank x ≡ false
    → Chosen hosts x
    → (h : Host) × Known h × (h.name ≡ x) × (is_lab h ≡ true)
lab_named Known hosts x a filled (inl e) =
    absurd (subst (λ y. is_blank y ≡ false → ⊥) (sym e) (λ b. absurd (cc)) filled)
lab_named Known hosts x a filled (inr m) = named Known hosts x a m

allowed : (a b c d : Bool) → a && not (b || c || d) ≡ true → (a ≡ true) × (c ≡ false)
allowed a b c d e = ground (arith, e)

install_sends :
    (c : Software) (s : State)
    → SendsOnce (drive (handle ask_install c) s).1 (
        request_of "/api/software/jobs"
          (some "POST")
          (some (
            object (
              field "host" (text c.host) (
                field "product" (text c.product) (field "target_version" (text c.version) close)))))
          s.browser)
unfolding handle prepare_install drive
install_sends c s =
    SendsOnce-api_fetch _ _ _ _
      (λ r. (λ x. (Silent-expect (review_of x.value) _ _ (λ _. tt) (λ _. tt), tt), λ f. tt))
      (λ f. tt) _ _

-- The installations that the page prepares: nginx or Tomcat, as a native service.
abbrev pub Native : Software → Type 0
Native c =
    ((c.product ≡ "nginx") ⊎ (c.product ≡ "tomcat"))
    × (c.operation ≡ "install")
    × (c.deployment ≡ "native")

installable-Native : (c : Software) → installable c ≡ true → Native c
installable-Native c e = (
  includes-two "nginx" "tomcat" c.product (ground (arith, e)),
  (eq_iff c.operation "install").0 (ground (arith, e)),
  (eq_iff c.deployment "native").0 (ground (arith, e)),
)

-- From the page as it opens, whatever the operator does and in whatever order the answers come, where
-- the VMs that the backend lists are those of its inventory: where the page lets the operator prepare
-- an installation, it is one of nginx or Tomcat as a native service; there is a VM of the inventory
-- that is classified as development or disposable lab; and one POST is sent, whose body has that VM's
-- name, and the product and the version of the page, and nothing but GETs after it, whatever is
-- answered.
pub install_targets_lab :
    (Known : Host → Type 0) (w : Browser) (y : Session State (Body Data))
    → Runs Known (opened w) y
    → clickable is_install (software_view y.now.page) ≡ true
    → Native y.now.page
      × ((h : Host) × Known h
          × ((h.environment ≡ "development") ⊎ (h.environment ≡ "disposable_lab"))
          × SendsOnce (drive (handle ask_install y.now.page) y.now).1 (
              request_of "/api/software/jobs"
                (some "POST")
                (some (
                  object (
                    field "host" (text h.name) (
                      field "product"
                        (text y.now.page.product)
                        (field "target_version" (text y.now.page.version) close)))))
                y.now.browser))
install_targets_lab Known w y runs on =
    let (can, filled) = allowed _ _ _ _ (sym (software_view-installable y.now.page) ∙ on) in
    let lab = reached-OnLab Known w y runs in
    let (h, known, e, on_lab) =
      lab_named Known y.now.page.hosts y.now.page.host lab.0 filled lab.1 in
    (
      installable-Native y.now.page can,
      (
        h,
        known,
        includes-two "development" "disposable_lab" h.environment on_lab,
        subst
            (λ name. SendsOnce (drive (handle ask_install y.now.page) y.now).1 (
              request_of "/api/software/jobs" (some "POST")
                (some (
                  object (
                    field "host" (text name) (
                      field "product" (text y.now.page.product)
                        (field "target_version" (text y.now.page.version) close)))))
                y.now.browser))
            (sym e) (install_sends y.now.page y.now),
      ),
    )

-- What the operator does leaves the VM, the software, its deployment, the operation and the version
-- as they were, or no plan is shown any more.
pub handle-planned :
    (e : Act) (s : State)
    → let p = (drive (handle e s.page) s).0.page in
      ((p.host ≡ s.page.host)
        × (p.product ≡ s.page.product)
        × (p.deployment ≡ s.page.deployment)
        × (p.operation ≡ s.page.operation)
        × (p.version ≡ s.page.version))
      ⊎ (p.plan ≡ none)
unfolding handle drive mount preview prepare_install api_fetch
handle-planned appear s = inl (refl, refl, refl, refl, refl)
handle-planned leave s = inl (refl, refl, refl, refl, refl)
handle-planned ask_preview s = inr refl
handle-planned ask_install s = inl (refl, refl, refl, refl, refl)
handle-planned (pick_host x) s = inr refl
handle-planned (pick_product x) s = inr refl
handle-planned (pick_deployment x) s = inr refl
handle-planned (pick_operation x) s = inr refl
handle-planned (type_version x) s = inr refl

-- What an answer to the request for a plan comes to.
abbrev pub answered : ℕ → Plan → Body Data → State → State
answered st q d s =
    if leb 200 st && ltb st 300
    then record s { page = record s.page { busy = false; error = ""; plan = some q } }
    else record s {
      page = record s.page {
        busy = false;
        error = or_else d.detail "Check the VM and exact target version.";
        plan = none;
      };
    }

-- With nothing in between, an answer with a plan and another status than 401 and 403 shows the plan
-- where it is `ok`, and its detail and no plan otherwise, also where one was shown before; and the
-- page is not busy.
pub preview_shows :
    (st : ℕ) (q : Plan) (d : Body Data) (s : State)
    → eqb st 401 || eqb st 403 ≡ false
    → d.value ≡ planned q
    → run (start (preview s.page)) (replies st d) s ≡ answered st q d s
unfolding preview expect
preview_shows st q d s other is_plan =
    Answered-run (λ s'. s' ≡ answered st q d s) (replies st d) (start (preview s.page)) s
      (Answered-api_fetch _ st d other _ _ _ _ _ _
        (λ fine. rw (is_plan, fine) refl, λ bad. rw bad refl))
