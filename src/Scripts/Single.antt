-- ===== src/Scripts/Single.antt =====
-- The requests of `ScriptPage` of ui/app/dynamic/page.tsx that are in flight: what its handlers do, in
-- their roles. `Sole` has what the page offers, and what follows.
pub mod Sole
use sysadmin_mcp_assisstant.Prelude.{ℕ, String, Bool, true, false, ◌≡◌, refl, Option, none, some}
use sysadmin_mcp_assisstant.Task.{
  Failure, Json, Task, modify, start, message_of, ◌>>=◌, ◌>>◌, attempt, finally, expect,
}
use sysadmin_mcp_assisstant.Page.{set_page}
use sysadmin_mcp_assisstant.Task.Roles.{Plays, Plays-expect}
use sysadmin_mcp_assisstant.Http.{Body, on_page}
use sysadmin_mcp_assisstant.Http.Roles.{Plays-api_fetch}
use sysadmin_mcp_assisstant.Page.Exclusive.{
  Role, working, other, Begins, Does, roles, blind, Calm, Works, Calm-get, Calm-value, Calm-read,
  Works-post,
}
use sysadmin_mcp_assisstant.Scripts.{
  Job, Scripts, Data, identity_of, hosts_of, draft_of, job_of, State, Reads, Kind, generate,
  prepare, run, run_job, recheck, perform, post, show_job, poll, poll_effect, mount, act,
}

abbrev pub busy : Scripts → Bool
busy p = p.busy

abbrev pub Waits : (k : Role) → Task State (Body Data) → State → Type 0
Waits k t s = Plays (roles busy) (Begins busy k) k s t s

-- The end of an action, in code that works.
Works-shows :
    (k : Unit {0} → Task State (Body Data)) (e : Failure → Task State (Body Data)) (x : Body Data)
    (b s : State)
    → ((u : State) → Works busy b (k tt) u)
    → ((f : Failure) → Works busy b (e f) s)
    → Works busy b (show_job x k e) s
unfolding show_job
Works-shows k e x b s ends fails =
    Plays-expect (roles busy) (Does busy working) working (job_of x.value) _ _ b s (λ j _. ends _)
      fails

Works-recheck :
    (kind : Kind) (j : Option Job) (c : Scripts) (k : Unit {0} → Task State (Body Data))
    (e : Failure → Task State (Body Data)) (b s : State)
    → s.page.busy ≡ true
    → ((z u : State) → Works busy z (k tt) u)
    → Works busy b (recheck kind j c k e) s
Works-recheck run (some j) c k e b s on ends =
    Plays-api_fetch (roles busy) working (blind busy working) (Does busy working) _ none none _ _ b
      s tt on tt tt
      (λ r z t _ _ h _. (
        λ _. (
          (tt, h, tt),
          tt,
          λ x u _ _ _. Works-shows k (λ _. k tt) x u u (ends u) (λ _. ends u u),
          λ f u _ _. ends u u,
        ),
        λ _. ends z t,
      ))
      (λ f u _ _. ends u u)
Works-recheck run none c k e b s on ends = ends b s
Works-recheck generate j c k e b s on ends = ends b s
Works-recheck prepare j c k e b s on ends = ends b s

-- What follows the post of an action, up to its end: `sent` is what is made of the answer.
Works-posted :
    (kind : Kind) (j : Option Job) (c : Scripts) (path : String) (body : Json)
    (sent : Body Data → Reads (Unit {0})) (base s : State)
    → base.page.busy ≡ false
    → s.page.busy ≡ true
    → ((x : Body Data) (k : Unit {0} → Task State (Body Data))
          (e : Failure → Task State (Body Data)) (u : State)
        → u.page.busy ≡ true
        → ((v : State) → Works busy u (k tt) v)
        → ((f : Failure) (v : State) → v.page.busy ≡ true → Works busy u (e f) v)
        → Works busy u (sent x k e) u)
    → Plays
        (roles busy)
        (Begins busy working)
        working
        base
        (start (
          finally
            (attempt
              (do x ← post path body; sent x)
              (λ reason. do
                set_page (λ (p : Scripts). record p { error = message_of reason "Request failed." })
                recheck kind j c))
            (set_page (λ (p : Scripts). record p { busy = false; password = "" }))))
        s
unfolding post
Works-posted kind j c path body sent base s idle on shows =
    Works-post busy _ _ _ _ base s idle on
      (λ r b t h. (
        (tt, h, tt),
        tt,
        λ x u _ _ hu. (
          λ _.
              shows x _ _ u hu (λ v. (tt, tt))
                (λ f v hv. Works-recheck kind j c _ _ u _ hv (λ _ _. (tt, tt))),
          λ _. Works-recheck kind j c _ _ u _ hu (λ _ _. (tt, tt)),
        ),
        λ f u _ hu. Works-recheck kind j c _ _ u _ hu (λ _ _. (tt, tt)),
      ))
      (λ f u hu. Works-recheck kind j c _ _ u _ hu (λ _ _. (tt, tt)))

act_run-Waits :
    (q : Option Job) (c : Scripts) (s : State)
    → s.page.busy ≡ false
    → Waits working
        (start (do
          set_page (λ (p : Scripts). record p { busy = true; error = "" })
          finally
              (attempt (run_job q c) (λ reason. do
                set_page (λ (p : Scripts). record p { error = message_of reason "Request failed." })
                recheck run q c))
              (set_page (λ (p : Scripts). record p { busy = false; password = "" }))))
        s
act_run-Waits none c s idle = (tt, idle)
act_run-Waits (some j) c s idle =
    Works-posted run (some j) c _ _ show_job s _ idle refl
      (λ x k e u hu ends fails. Works-shows k e x u u ends (λ f. fails f u hu))

pub act-Waits :
    (kind : Kind) (s : State) → s.page.busy ≡ false → Waits working (start (act kind s.page)) s
unfolding act
act-Waits generate s idle =
    Works-posted generate s.page.job s.page _ _
      (λ x. do
        d ← expect (draft_of x.value)
        set_page (λ (p : Scripts). record p { script = d.0; verification = d.1 }))
      s _ idle refl
      (λ x k e u hu ends fails.
        Plays-expect (roles busy) (Does busy working) working (draft_of x.value) _ _ u u
          (λ d _. ends _) (λ f. fails f u hu))
act-Waits prepare s idle =
    Works-posted prepare s.page.job s.page _ _ show_job s _ idle refl
      (λ x k e u hu ends fails. Works-shows k e x u u ends (λ f. fails f u hu))
act-Waits run s idle = act_run-Waits s.page.job s.page s idle

pub poll_effect-Waits : (s : State) → Waits other (start poll_effect) s
unfolding poll_effect
poll_effect-Waits s = (tt, refl)

pub poll-Waits : (n : ℕ) (id : String) (s : State) → Waits other (start (poll n id s.page)) s
unfolding poll
poll-Waits n id s =
    Calm-get busy _ _ _ s s refl
      (λ r b t got d. (
        λ _.
            Calm-value busy r job_of _ _ b t got d (λ j z. (λ _. (tt, refl), λ _. (tt, refl)))
              (λ _ z. (tt, refl)),
        λ _. (tt, d),
      ))
      (λ _ z. (tt, refl))

pub mount-Waits : (s : State) → Waits other (start (mount s.page)) s
unfolding mount
mount-Waits s =
    Calm-read busy _ identity_of _ _ _ s _ refl
      (λ token b t d.
        Calm-read busy _ hosts_of _ _ _ b _ d
          (λ rows b' t' d'. (
            λ _. (
              λ _. (tt, d'),
              λ _.
                  Calm-read busy _ job_of _ _ _ b' _ d' (λ j _ _ q. (λ _. (tt, q), λ _. (tt, q)))
                    (λ _ _ _ q. (λ _. (tt, q), λ _. (tt, q)))
                    (λ _ _ q. (λ _. (tt, q), λ _. (tt, q))),
            ),
            λ _. (
              λ _. (tt, d'),
              λ _.
                  Calm-read busy _ job_of _ _ _ b' _ d' (λ j _ _ q. (λ _. (tt, q), λ _. (tt, q)))
                    (λ _ _ _ q. (λ _. (tt, q), λ _. (tt, q)))
                    (λ _ _ q. (λ _. (tt, q), λ _. (tt, q))),
            ),
          ))
          (λ _ _ _ q. (λ _. (tt, q), λ _. (tt, q))) (λ _ _ q. (λ _. (tt, q), λ _. (tt, q))))
      (λ _ _ _ q. (λ _. (tt, q), λ _. (tt, q))) (λ _ _ q. (λ _. (tt, q), λ _. (tt, q)))
