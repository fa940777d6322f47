-- ===== src/Console/Prompts.antt =====
-- Handlers of ui/app/page.tsx that send no prompt leave alone whether the page is running: the loads here,
-- all of the handlers in `Single`.
pub mod Single
use sysadmin_mcp_assisstant.Prelude.{ℕ, suc, String, Bool, true, false, ◌≡◌, refl, Option, none}
use sysadmin_mcp_assisstant.Task.{Failure, Task, branch, json, expect, ok}
use sysadmin_mcp_assisstant.Http.{Body, api_fetch}
use sysadmin_mcp_assisstant.Page.{set_page}
use sysadmin_mcp_assisstant.Page.Exclusive
use sysadmin_mcp_assisstant.Page.Exclusive.{Calm-read}
use sysadmin_mcp_assisstant.Console.{Console, Data, State}
use sysadmin_mcp_assisstant.Console.Load.{
  rows_of, saved_of, if_current, open_at, open_chat, select_host, new_chat,
}

abbrev pub running : Console → Bool
running c = c.running

abbrev pub Calm : State → Task State (Body Data) → State → Type 0
Calm = Exclusive.Calm running

module _ (version : ℕ) (k : Unit {0} → Task State (Body Data))
    (e : Failure → Task State (Body Data))
    (h : (b s : State) → s.page.running ≡ b.page.running → Calm b (k tt) s) where
  -- The `finally` of a load, and its `catch`.
  Calm-ends :
      (b s : State)
      → s.page.running ≡ b.page.running
      → Calm b
          (if_current version (set_page (λ (c : Console). record c { loading_chat = false })) k e)
          s
  Calm-ends b s d = (λ _. h b _ d, λ _. h b s d)

  Calm-fails :
      (b s : State) (message : String)
      → s.page.running ≡ b.page.running
      → Calm b
          (if_current version
            (set_page (λ (c : Console). record c { chat_error = message }))
            (λ x.
              if_current version
                (set_page (λ (c : Console). record c { loading_chat = false }))
                (λ _. k tt)
                e)
            e)
          s
  Calm-fails b s message d = (λ _. Calm-ends b _ d, λ _. Calm-ends b s d)

  Calm-open_at :
      (id target : String) (base s : State)
      → s.page.running ≡ base.page.running
      → Calm base (open_at id target version k e) s
  unfolding open_at
  Calm-open_at id target base s d =
      Calm-read running _ saved_of _ _ _ base _ d
        (λ a u t q. (λ _. Calm-ends u _ q, λ _. Calm-ends u t q)) (λ f u t q. Calm-fails u t _ q)
        (λ u t q. Calm-fails u t _ q)

module _ (k : Unit {0} → Task State (Body Data)) (e : Failure → Task State (Body Data))
    (h : (b s : State) → s.page.running ≡ b.page.running → Calm b (k tt) s) where
  pub Calm-select_host :
      (next_host : String) (requested : Option String) (base s : State)
      → s.page.running ≡ base.page.running
      → Calm base (select_host next_host requested k e) s
  unfolding select_host
  Calm-select_host next_host requested base s d =
      let version = suc s.page.selection in
      Calm-read running _ rows_of _ _ _ base _ d
        (λ found u t q. (
          λ _. (
            λ _.
                Calm-open_at version _ _ (λ c z r. Calm-ends version k e h c z r) _ next_host u _ q,
            λ _. Calm-ends version k e h u _ q,
          ),
          λ _. Calm-ends version k e h u t q,
        ))
        (λ f u t q. Calm-fails version k e h u t _ q) (λ u t q. Calm-fails version k e h u t _ q)

  pub Calm-open_chat :
      (id host : String) (base s : State)
      → s.page.running ≡ base.page.running
      → Calm base (open_chat id host k e) s
  unfolding open_chat
  Calm-open_chat id host base s d = Calm-open_at (suc s.page.selection) k e h id host base _ d

  pub Calm-new_chat :
      (host : String) (base s : State)
      → s.page.running ≡ base.page.running
      → Calm base (new_chat host k e) s
  unfolding new_chat
  Calm-new_chat host base s d = h base _ d
