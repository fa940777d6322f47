-- ===== src/Console/Hosts.antt =====
-- The conversations listed in ui/app/page.tsx and the VM that is selected: the invariant that the
-- handlers keep, in `Loads` for the loads and in `Always` for all of them.
pub mod Loads
pub mod Always
use native.Mathlib.Nat.{le_refl, le_trans}
use sysadmin_mcp_assisstant.Prelude.{
  ℕ, suc, String, ◌≡◌, refl, ◌∙◌, sym, ◌≤◌, true, false, List, [], ◌∷◌, ◌++◌, Option, none, some,
  All, arith, Bool, any, ◌==◌, eqb, Bool-cases, inl, inr,
}
use mathlib.Core.Path.{subst, subst₂}
use sysadmin_mcp_assisstant.Task.{Failure, Settled, Request, Response, Task, ok, expect, start}
use sysadmin_mcp_assisstant.Task.Keeps.{Keeps, Keeps-expect, Reach-Fine}
use sysadmin_mcp_assisstant.Http.{Browser, World, Body, request_of, on_page}
use sysadmin_mcp_assisstant.Http.Sound.{Keeps-api_fetch}
use sysadmin_mcp_assisstant.Console.{
  Conversation, Console, Data, identity, host_rows, provider_rows, saved, rows, State, Event,
}
use sysadmin_mcp_assisstant.Console.Load.{
  rows_of, rows_path, identity_of, hosts_of, providers_of, saved_of, open_at, open_chat,
  select_host, new_chat, mount,
}
use sysadmin_mcp_assisstant.Console.Submit.{list_chat, on_state, submit}
use sysadmin_mcp_assisstant.Console.Stream.{Kept, read_chunk-Kept}
use sysadmin_mcp_assisstant.Console.Screen.{
  Act, first_render, send, start_chat, pick_host, pick_chat, pick_provider, write, handle,
}
use sysadmin_mcp_assisstant.Task.Pool.{Session, Reach}

-- Every conversation listed is one of the VM that is selected.
abbrev pub Listed : State → Type 0
Listed s = All (λ (row : Conversation). row.host ≡ s.page.host) s.page.conversations

-- The selection's counter grows, and the VM changes only where it does.
abbrev pub Later : State → State → Type 0
Later s s' =
    (s.page.selection ≤ s'.page.selection)
    × (s.page.selection ≡ s'.page.selection → s.page.host ≡ s'.page.host)

-- The backend answers the request for a VM's conversations with conversations of that VM.
abbrev pub ListsHost : Request → Body Data → Type 0
ListsHost r b =
    (host : String) (w : Browser) (found : List Conversation)
    → r ≡ request_of (rows_path host) none none w
    → b.value ≡ rows found
    → All (λ (row : Conversation). row.host ≡ host) found

pub Later-refl : (s : State) → Later s s
Later-refl s = (le_refl _, λ _. refl)

pub Later-trans : (u v w : State) → Later u v → Later v w → Later u w
Later-trans u v w p q =
    (le_trans p.0 q.0, λ e. p.1 (omega (arith, p.0, q.0)) ∙ q.1 (omega (arith, p.0, q.0)))

pub after : (s b s' u : State) → Later s b → Later b s' → Later s' u → Later s u
after s b s' u p q r = Later-trans s b u p (Later-trans b s' u q r)

abbrev pub KeepsListed : State → Task State (Body Data) → State → Type 0
KeepsListed = Keeps Listed Later ListsHost
