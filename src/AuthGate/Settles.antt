-- ===== src/AuthGate/Settles.antt =====
-- The redirects of ui/components/auth-gate.tsx, one after the other.
use sysadmin_mcp_assisstant.Prelude.{
  ℕ, String, Bool, true, false, ◌∷◌, eqb, leb, ltb, ◌&&◌, ◌==◌, ◌≡◌, refl, ◌⊎◌, inl, inr,
  Bool-cases,
}
use mathlib.Core.Path.{subst}
use sysadmin_mcp_assisstant.Task.{drive}
use sysadmin_mcp_assisstant.Task.Pool.{replies, run}
use sysadmin_mcp_assisstant.AuthGate.{State}
use sysadmin_mcp_assisstant.AuthGate.Admission.{opens, handle}
use sysadmin_mcp_assisstant.AuthGate.Verdict.{
  Verdict, unavailable, leaves_for, verdict, Comes, checked, verify_decides,
}

-- The gate after the page at `path` has been opened, with nothing in between.
abbrev pub opened : String → ℕ → String → Bool → State → State
opened path st token must s = run (handle (opens path) s) (replies st (checked token must)) s

-- Where a redirect goes to, the same answer lets the operator stay.
abbrev Settled : ℕ → Bool → Verdict → Type 0
Settled st must v =
    (v ≡ Verdict.opens)
    ⊎ (v ≡ unavailable)
    ⊎ ((to : String) × (v ≡ leaves_for to) × (verdict to st must ≡ Verdict.opens))

fine-Settled :
    (path : String) (st : ℕ) (must : Bool)
    → eqb st 401 ≡ false
    → leb 200 st && ltb st 300 ≡ true
    → Settled st must (verdict path st must)
fine-Settled path st true asked fine = elim (Bool-cases (path == "/change-password")) [
  | inl there ↦ inl (rw (asked, fine, there) refl)
  | inr other ↦ inr (inr ("/change-password", rw (asked, fine, other) refl, rw (asked, fine) refl))
]
fine-Settled path st false asked fine = elim (Bool-cases (path == "/login")) [
  | inl at_login ↦ inr (inr ("/", rw (asked, fine, at_login) refl, rw (asked, fine) refl))
  | inr other ↦ inl (rw (asked, fine, other) refl)
]

verdict-Settled : (path : String) (st : ℕ) (must : Bool) → Settled st must (verdict path st must)
verdict-Settled path st must = elim (Bool-cases (eqb st 401)) [
  | inl denied ↦ elim (Bool-cases (path == "/login")) [
    | inl at_login ↦ inl (rw (denied, at_login) refl)
    | inr other ↦ inr (inr ("/login", rw (denied, other) refl, rw denied refl))
  ]
  | inr asked ↦ elim (Bool-cases (leb 200 st && ltb st 300)) [
    | inl fine ↦ fine-Settled path st must asked fine
    | inr failed ↦ elim (Bool-cases (path == "/login")) [
      | inl at_login ↦ inl (rw (asked, failed, at_login) refl)
      | inr other ↦ inr (inl (rw (asked, failed, other) refl))
    ]
  ]
]

-- What a verdict comes to does not depend on where the browser was before.
Comes-at :
    (v : Verdict) (path : String) (s s' : State)
    → Comes v (record s { browser = record s.browser { path = path } }) s'
    → Comes v s s'
Comes-at Verdict.opens path s s' c = c
Comes-at unavailable path s s' c = c
Comes-at (leaves_for to) path s s' c = c

pub opened-Comes :
    (path token : String) (st : ℕ) (must : Bool) (s : State)
    → Comes (verdict path st must) s (opened path st token must s)
unfolding handle run drive
opened-Comes path token st must s =
    Comes-at (verdict path st must) path s _
      (verify_decides path token st must (record s { browser = record s.browser { path = path } }))

-- With nothing in between and the same answer each time, whatever its status, the page's path and
-- `must_change_password` are: the gate shows the page, or reports that the backend is unavailable, or
-- redirects once, to a page that it shows without another redirect.
pub redirects_settle :
    (path token : String) (st : ℕ) (must : Bool) (s : State)
    → let s1 = opened path st token must s in
      (s1.page.ready ≡ true)
      ⊎ (s1.page.offline ≡ true)
      ⊎ ((to : String) × (s1.browser.visited ≡ to ∷ s.browser.visited)
          × ((opened to st token must s1).page.ready ≡ true)
          × ((opened to st token must s1).browser.visited ≡ s1.browser.visited))
redirects_settle path token st must s =
    let s1 = opened path st token must s in
    let comes = opened-Comes path token st must s in
    elim (verdict-Settled path st must) [
      | inl e ↦ inl (subst (λ v. Comes v s s1) e comes).0
      | inr (inl e) ↦ inr (inl (subst (λ v. Comes v s s1) e comes).1)
      | inr (inr (to, e, stays)) ↦
          let (_, _, sent) = subst (λ v. Comes v s s1) e comes in
          let (shown, _, still) =
            subst (λ v. Comes v s1 (opened to st token must s1)) stays
              (opened-Comes to token st must s1) in
          inr (inr (to, sent, shown, still))
    ]
