-- ===== src/Console/Prompts/Single.antt =====
-- At most one prompt of ui/app/page.tsx is in flight, whatever the user does and in whatever order the
-- answers come.
use sysadmin_mcp_assisstant.Prelude.{
  if◌then◌else◌, ◌≤◌, String, true, false, ◌≡◌, refl, ◌∙◌, sym, [], none, Bool-cases, inl, inr,
}
use sysadmin_mcp_assisstant.Task.{Settled, start}
use sysadmin_mcp_assisstant.Task.Pool.{Session, Reach}
use sysadmin_mcp_assisstant.Task.Roles.{Plays}
use sysadmin_mcp_assisstant.Http.{Body}
use sysadmin_mcp_assisstant.Console.{Data, State, Event}
use sysadmin_mcp_assisstant.Console.Load.{identity_of, hosts_of, providers_of, mount}
use sysadmin_mcp_assisstant.Console.Submit.{refuses, submit}
use sysadmin_mcp_assisstant.Console.Form.{refuses-Complete}
use sysadmin_mcp_assisstant.Console.Stream.{read_chunk-Kept}
use sysadmin_mcp_assisstant.Console.Screen.{
  Act, first_render, send, start_chat, pick_host, pick_chat, pick_provider, write, handle,
}
use sysadmin_mcp_assisstant.Page.Exclusive.{
  Role, other, working, Begins, roles, Works-post, Calm-read,
}
use sysadmin_mcp_assisstant.Page.Exclusive.Sole.{posts, Runs-posts}
use sysadmin_mcp_assisstant.Console.Prompts.{
  running, Calm, Calm-select_host, Calm-open_chat, Calm-new_chat,
}

Calm-mount : (s : State) → Calm s (start mount) s
unfolding mount
Calm-mount s =
    Calm-read running _ identity_of _ _ _ s s refl
      (λ token b t d.
        Calm-read running _ hosts_of _ _ _ b _ d
          (λ hosts b' t' d'.
            Calm-read running _ providers_of _ _ _ b' _ d'
              (λ providers u v q. (
                λ _. (tt, q),
                λ _. Calm-select_host _ _ (λ _ _ r. (tt, r)) _ v.page.query_chat u _ q,
              ))
              (λ _ _ _ q. (tt, q)) (λ _ _ q. (tt, q)))
          (λ _ _ _ q. (tt, q)) (λ _ _ q. (tt, q)))
      (λ _ _ _ q. (tt, q)) (λ _ _ q. (tt, q))

module _ (parse : String → Settled Event) where
  Plays-submit :
      (s : State)
      → refuses s.page ≡ false
      → Plays (roles running) (Begins running working) working s (start (submit parse s.page)) s
  unfolding submit
  Plays-submit s go =
      let (_, _, _, idle, _) = refuses-Complete s.page go in
      (
        λ x. absurd (cc),
        λ _.
            Works-post running _ _ _ _ s _ idle refl
              (λ r b s' h. (
                λ _. (
                  (tt, h, tt),
                  tt,
                  λ c m z _ h'. (tt, sym (read_chunk-Kept parse c m z.page).running ∙ h', tt),
                  λ z _ _. (tt, tt),
                  λ f z t _ _ _. (tt, tt),
                ),
                λ _. (tt, tt),
              ))
              (λ f z h. (tt, tt)),
      )

  Calm-refused : (s : State) → refuses s.page ≡ true → Calm s (start (submit parse s.page)) s
  unfolding submit
  Calm-refused s no_prompt = (λ _. (tt, refl), λ go. absurd (cc))

  handle-Plays :
      (a : Act) (s : State)
      → Unit {0}
      → (k : Role) × Plays (roles running) (Begins running k) k s (handle parse a s.page) s
  unfolding handle
  handle-Plays first_render s _ = (other, Calm-mount s)
  handle-Plays send s _ = elim (Bool-cases (refuses s.page)) [
    | inl no_prompt ↦ (other, Calm-refused s no_prompt)
    | inr go ↦ (working, Plays-submit s go)
  ]
  handle-Plays start_chat s _ = (other, Calm-new_chat _ _ (λ b t d. (tt, d)) s.page.host s s refl)
  handle-Plays (pick_host h) s _ = (other, Calm-select_host _ _ (λ b t d. (tt, d)) h none s s refl)
  handle-Plays (pick_chat id) s _ = (
    other,
    (
      λ _. Calm-new_chat _ _ (λ b t d. (tt, d)) s.page.host s s refl,
      λ _. Calm-open_chat _ _ (λ b t d. (tt, d)) id s.page.host s s refl,
    ),
  )
  handle-Plays (pick_provider p) s _ = (other, (λ _. (tt, refl), λ _. (tt, refl)))
  handle-Plays (write m) s _ = (other, (tt, refl))

  abbrev pub Runs : Session State (Body Data) → Session State (Body Data) → Type 0
  Runs = Reach (λ r b. Unit {0}) Act (λ s a. Unit {0}) (λ a s. handle parse a s.page)

  -- From a page with nothing in flight, after any acts of the user and any answers in any order: at most
  -- one handler waits for the answer or the stream of a POST, and none where the page is not running.
  pub one_prompt :
      (w : State) (y : Session State (Body Data))
      → Runs (record { now = w; tasks = [] }) y
      → posts y.tasks ≤ (if y.now.page.running then 1 else 0)
  one_prompt w y runs =
      Runs-posts running (λ s a. Unit {0}) (λ a s. handle parse a s.page) handle-Plays w y runs
