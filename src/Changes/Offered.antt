-- ===== src/Changes/Offered.antt =====
-- What the whole card of a transaction in ui/app/changes/page.tsx lets the operator ask for.
use sysadmin_mcp_assisstant.Prelude.{
  String, Bool, false, ◌&&◌, not, List, [], ◌∷◌, map, ◌≡◌, refl, ◌∙◌,
}
use sysadmin_mcp_assisstant.View.{Widget, clickable, clicks}
use sysadmin_mcp_assisstant.Changes.{Change, Changes}
use sysadmin_mcp_assisstant.Changes.Stages.{Act, stage_view}
use sysadmin_mcp_assisstant.Changes.Starts.{asks, in_state, supplied, stage_view-in_state}
use sysadmin_mcp_assisstant.Changes.Plans.{Event, step}
use sysadmin_mcp_assisstant.Changes.Details.{Printer}
use sysadmin_mcp_assisstant.Changes.Listing.{hosts_view, item_view}

-- A click that asks for the same step of a transaction.
abbrev pub asks_step : Act → Event → Bool
asks_step a (step e c) = asks a e
asks_step a e = false

hosts_view-step :
    (a : Act) (p : Changes) (c : Change) (hs : List String)
    → clickable (asks_step a) (hosts_view p c hs) ≡ false
hosts_view-step a p c [] = refl
hosts_view-step a p c (h ∷ hs) = simp (clicks, hosts_view-step a p c hs)

progress-step :
    (a : Act) (xs : List (String × Bool))
    → clickable (asks_step a) (map (λ (s : String × Bool). Widget.text s.0) xs) ≡ false
progress-step a [] = refl
progress-step a (x ∷ xs) = progress-step a xs

-- The card of a transaction lets the operator ask for a step exactly in the step's states, while the
-- page is not busy, and with what the step needs, whatever else its preview and its evidence say.
-- (Typing a password is no step.)
pub item_view-in_state :
    (l : Printer) (a : Act) (p : Changes) (c : Change)
    → clickable (asks_step a) (item_view l p c)
      ≡ in_state a c.state && (supplied a p c && not p.busy)
unfolding item_view
item_view-in_state l a p c =
    let same : clickable (asks_step a) (item_view l p c) ≡ clickable (asks a) (stage_view p c) =
      simp (clicks, progress-step, hosts_view-step) in
    same ∙ stage_view-in_state a p c
