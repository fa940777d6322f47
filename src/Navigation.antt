-- ===== src/Navigation.antt =====
-- ui/components/app-nav.tsx: the navigation bar that every page shows, and signing out.
pub mod SignOut
use sysadmin_mcp_assisstant.Prelude.{
  String, Bool, true, false, List, [], ◌∷◌, ◌++◌, none, some, when, ◌==◌, if◌then◌else◌,
}
use sysadmin_mcp_assisstant.Task.{Task, Code, pure, update, ◌>>=◌, ◌>>◌, attempt, finally, start}
use sysadmin_mcp_assisstant.View.{Widget, text, button, link}
use sysadmin_mcp_assisstant.Http.{Browser, World, Body, api_fetch, on_browser}
use sysadmin_mcp_assisstant.Page.{set_page, go_to}
use package.text.Mathlib.Text.{starts_with}

pub record Navigation : Type 0 where
  -- `false` only while the page is rendered on the server
  pub mounted : Bool
  pub is_open : Bool

-- The entries: target and label.
abbrev pub links : List (String × String)
links =
    ("/", "Console")
    ∷ ("/fleet", "Fleet")
    ∷ ("/vms", "VM management")
    ∷ ("/playbooks", "Playbooks")
    ∷ ("/security", "Security")
    ∷ ("/remediation", "Remediation")
    ∷ ("/changes", "Changes")
    ∷ ("/software", "Software")
    ∷ ("/scripts", "Host scripts")
    ∷ ("/dynamic", "Dynamic scripts")
    ∷ ("/backups", "Database backups")
    ∷ ("/history", "History")
    ∷ ("/account", "Account")
    ∷ []

-- The entry is drawn as the current one.
unfoldable pub is_active : String → String → Bool
is_active path href = if href == "/" then path == href else starts_with path href

abbrev pub State : Type 0
State = World Navigation

-- The body of the answer is not read, unless it denies; of the page, nothing is read or set.
unfoldable pub logout : {P D : Type 0} → Code (World P) (Body D) (Unit {0})
logout =
    finally
      (attempt (do r ← api_fetch "/api/auth/logout" (some "POST") none; pure tt) (λ _. pure tt))
      (do
        update (on_browser (λ b. record b { csrf = none }))
        update (on_browser (λ b. record b { session_id = none }))
        go_to "/login")

-- `follow` is the drawer's part of a click on an entry; the navigation is the link's.
pub data Act : Type 0 where
  open_drawer close_drawer follow sign_out : Act

abbrev links_view : List (String × String) → List (Widget Act)
links_view [] = []
links_view (l ∷ ls) = link l.0 l.1 ∷ links_view ls

unfoldable pub navigation_view : Navigation → List (Widget Act)
navigation_view n = when n.mounted (
    button "Open navigation" false open_drawer
      ∷ when n.is_open (button "Close navigation overlay" false close_drawer ∷ [])
    ++ text "Evesdropctl"
      ∷ text "Bounded control plane"
      ∷ button "Close navigation" false close_drawer
      ∷ links_view links
    ++ button "Sign out" false sign_out
      ∷ text "Host changes require scoped authority and confirmation."
      ∷ [])

unfoldable pub handle : Act → Task State (Body (Unit {0}))
handle open_drawer = start (set_page (λ n. record n { is_open = true }))
handle close_drawer = start (set_page (λ n. record n { is_open = false }))
handle follow = start (set_page (λ n. record n { is_open = false }))
handle sign_out = start logout
