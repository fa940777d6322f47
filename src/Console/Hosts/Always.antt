-- ===== src/Console/Hosts/Always.antt =====
-- The conversations listed in ui/app/page.tsx belong to the VM that is selected, in whatever order
-- answers come and whatever the user does in between.
use sysadmin_mcp_assisstant.Prelude.{
  String, ◌≡◌, refl, ◌∙◌, sym, ◌≤◌, [], none, All, arith, any, ◌==◌, Bool-cases, inl, inr,
}
use mathlib.Core.Path.{subst, subst₂}
use sysadmin_mcp_assisstant.Task.{Failure, Settled, Task, start}
use sysadmin_mcp_assisstant.Task.Keeps.{Reach-Fine}
use sysadmin_mcp_assisstant.Http.{Browser, Body}
use sysadmin_mcp_assisstant.Http.Sound.{Keeps-api_fetch}
use sysadmin_mcp_assisstant.Console.{Conversation, Console, Data, State, Event}
use sysadmin_mcp_assisstant.Console.Load.{new_chat}
use sysadmin_mcp_assisstant.Console.Submit.{list_chat, on_state, submit}
use sysadmin_mcp_assisstant.Console.Stream.{Kept, read_chunk-Kept}
use sysadmin_mcp_assisstant.Console.Screen.{
  Act, first_render, send, start_chat, pick_host, pick_chat, pick_provider, write, handle,
}
use sysadmin_mcp_assisstant.Task.Pool.{Session, Reach}
use sysadmin_mcp_assisstant.Console.Hosts.{
  Listed, Later, ListsHost, Later-refl, Later-trans, KeepsListed,
}
use sysadmin_mcp_assisstant.Console.Hosts.Loads.{Keeps-select_host, Keeps-open_chat, Keeps-mount}

-- A change of the state that leaves the list, the VM and the selection.
Listed-Kept : (s s' : State) → Kept s.page s'.page → Listed s → Listed s'
Listed-Kept s s' k i =
    subst₂ (λ h rs. All (λ (row : Conversation). row.host ≡ h) rs) k.host k.conversations i

Later-Kept : (b s s' : State) → Kept s.page s'.page → Later b s → Later b s'
Later-Kept b s s' k q =
    (subst (λ n. b.page.selection ≤ n) k.selection q.0, λ x. q.1 (x ∙ sym k.selection) ∙ k.host)

list_chat-All :
    (s : State) (prompt : String)
    → Listed s
    → All
        (λ (row : Conversation). row.host ≡ s.page.host)
        (list_chat s.page prompt s.page.conversations)
list_chat-All s prompt i =
    elim (Bool-cases (any (λ row. row.id == s.page.session_id) s.page.conversations)) [
      | inl e ↦ rw e i
      | inr e ↦ rw e (refl, i)
    ]

module _ (parse : String → Settled Event) (k : Unit {0} → Task State (Body Data))
    (e : Failure → Task State (Body Data)) (base s : State) where
  Keeps-submit :
      Listed s
      → Later base s
      → ((b s' : State) → Listed s' → Later b s' → KeepsListed b (k tt) s')
      → KeepsListed base (submit parse s.page k e) s
  unfolding submit
  Keeps-submit i q h = (
    λ _. h base s i q,
    λ go.
        Keeps-api_fetch Listed Later ListsHost (λ _ w j. j) (λ _ w v j. j) Later-refl Later-trans _
          _ _ _ _ base _ (list_chat-All s _ i) q
          (λ r b s' _ j p p'. (
            λ _. (
              (j, p),
              λ c l u ju pu.
                  let kept = read_chunk-Kept parse c l u.page in
                  (
                    Listed-Kept u (on_state parse c l u).1 kept ju,
                    Later-Kept u u (on_state parse c l u).1 kept (Later-refl u),
                  ),
              λ u ju pu. h u _ ju (Later-refl u),
              λ f z u ju pz pu. h z _ ju pu,
            ),
            λ _. h b _ j p,
          ))
          (λ f s' j p. h s' _ j (Later-refl s')),
  )

module _ (host : String) (base s : State) where
  Keeps-new_chat : Listed s → Later base s → KeepsListed base (start (new_chat host)) s
  unfolding new_chat
  Keeps-new_chat i q = (i, (omega (arith, q), λ x. absurd (omega (arith, q))))

module _ (parse : String → Settled Event) where
  handle-Keeps :
      (a : Act) (s : State) → Listed s → Unit {0} → KeepsListed s (handle parse a s.page) s
  unfolding handle
  handle-Keeps first_render s i _ = Keeps-mount _ _ s s i (Later-refl s) (λ b s' j p. (j, p))
  handle-Keeps send s i _ = Keeps-submit parse _ _ s s i (Later-refl s) (λ b s' j p. (j, p))
  handle-Keeps start_chat s i _ = Keeps-new_chat s.page.host s s i (Later-refl s)
  handle-Keeps (pick_host h) s i _ =
      Keeps-select_host h none _ _ s s i (Later-refl s) (λ b s' j p. (j, p))
  handle-Keeps (pick_chat id) s i _ = (
    λ _. Keeps-new_chat s.page.host s s i (Later-refl s),
    λ _. Keeps-open_chat id s.page.host _ _ s s i (Later-refl s) (λ b s' j p. (j, p)),
  )
  handle-Keeps (pick_provider p) s i _ = (λ _. (i, Later-refl s), λ _. (i, Later-refl s))
  handle-Keeps (write m) s i _ = (i, Later-refl s)

  abbrev pub Runs : Session State (Body Data) → Session State (Body Data) → Type 0
  Runs = Reach ListsHost Act (λ s a. Unit {0}) (λ a s. handle parse a s.page)

  -- From a page with no conversation listed and nothing in flight, after any acts of the user and
  -- any answers in any order, where the backend answers the request for a VM's conversations with
  -- that VM's, every conversation listed is one of the VM that is selected.
  pub listed-of_host :
      (w : Browser) (c : Console) (y : Session State (Body Data))
      → c.conversations ≡ []
      → Runs (record { now = record { browser = w; page = c }; tasks = [] }) y
      → All (λ (row : Conversation). row.host ≡ y.now.page.host) y.now.page.conversations
  listed-of_host w c y none_listed runs =
      (Reach-Fine Listed Later ListsHost Later-trans (λ s _. Later-refl s) (λ s a. Unit {0})
        (λ a s. handle parse a s.page) handle-Keeps
        (record {
          state_I =
              subst (λ rs. All (λ (row : Conversation). row.host ≡ c.host) rs) (sym none_listed) tt;
          tasks_wait = tt;
        })
        runs).state_I
