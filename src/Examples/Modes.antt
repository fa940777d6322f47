-- ===== src/Examples/Modes.antt =====
-- The theorems on ui/components/authority-control.tsx at concrete states.
use sysadmin_mcp_assisstant.Prelude.{refl, [], ◌∷◌, none, All, inr}
use sysadmin_mcp_assisstant.Http.{Body}
use sysadmin_mcp_assisstant.Examples.{at}
use sysadmin_mcp_assisstant.Authority.{
  Authority, Data, authority_body, Control, State, initial, selectable_hosts,
}
use sysadmin_mcp_assisstant.Authority.Scope.{Lab, selectable_hosts-All}

abbrev control : Control
unfolding initial
control = record (initial 0) {
  hosts =
      record { name = "web"; environment = "production" }
      ∷ record { name = "lab"; environment = "disposable_lab" }
      ∷ [];
}

abbrev page : State
page = at "/" control

selectable_hosts-All_example : All Lab (selectable_hosts control)
unfolding control
selectable_hosts-All_example = selectable_hosts-All control (inr (inr refl))

abbrev guided : Authority
guided = record {
  mode = "guided";
  status = "armed";
  hosts = "lab" ∷ [];
  capabilities = "host_scripts" ∷ [];
  expires_at = none;
  available_capabilities = none;
  available_recipe_ids = none;
}

abbrev granted : Body Data
granted = record { detail = none; value = authority_body guided }
