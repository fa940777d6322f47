-- ===== src/Login/Repeats.antt =====
-- How many sign-ins of ui/app/login/page.tsx can be in flight at once.
use sysadmin_mcp_assisstant.Prelude.{
  ℕ, true, ap, ◌∙◌, zero, suc, List, [], ◌∷◌, ◌++◌, ◌≡◌, refl, inl, inr, arith,
}
use sysadmin_mcp_assisstant.Task.{Task, drive}
use sysadmin_mcp_assisstant.Task.Pool.{Session, Reach, here, next, react}
use sysadmin_mcp_assisstant.View.{Offers}
use sysadmin_mcp_assisstant.Http.{Body}
use sysadmin_mcp_assisstant.Page.Exclusive.Sole.{posting, posts}
use sysadmin_mcp_assisstant.Login.{Data, State, Act, sign_in, submit, login_view, handle}

-- What the page offers, and any answers.
abbrev pub Runs : Session State (Body Data) → Session State (Body Data) → Type 0
Runs = Reach (λ r b. Unit {0}) Act (λ s a. Offers (login_view s.page) a) (λ a s. handle a s.page)

posts-append :
    (ts : List (Task State (Body Data))) (t : Task State (Body Data))
    → posting t ≡ true
    → posts (ts ++ t ∷ []) ≡ suc (posts ts)
posts-append [] t e = ground (arith, e)
posts-append (u ∷ ts) t e = omega (arith, posts-append ts t e)

-- For every number there is a run from any page, of acts that the page offers, after which as many
-- handlers wait for the answer to a POST.
pub sign_ins_unbounded :
    (n : ℕ) (s : State)
    → (y : Session State (Body Data)) × Runs (record { now = s; tasks = [] }) y
      × (posts y.tasks ≡ n)
unfolding handle submit drive login_view
sign_ins_unbounded zero s = (record { now = s; tasks = [] }, here, refl)
sign_ins_unbounded (suc n) s =
    let (y, runs, count) = sign_ins_unbounded n s in
    let sent = drive (handle sign_in y.now.page) y.now in
    (
      record { now = sent.0; tasks = y.tasks ++ sent.1 ∷ [] },
      next runs (react y.now y.tasks sign_in (inr (inr (inl refl))) refl),
      posts-append y.tasks sent.1 refl ∙ ap suc count,
    )
