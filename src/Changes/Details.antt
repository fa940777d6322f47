-- ===== src/Changes/Details.antt =====
-- The texts that ui/app/changes/page.tsx prints of a transaction's preview and evidence. How a moment,
-- a number and the evidence as JSON are printed are arguments (`toLocaleString`, `JSON.stringify`).
use sysadmin_mcp_assisstant.Prelude.{
  suc, String, Bool, not, List, [], ◌∷◌, ◌++◌, Option, none, some, map, is_empty, when, length,
  last, or_else, if◌then◌else◌,
}
use sysadmin_mcp_assisstant.Prelude.Text.{is_blank, concat, join, replace_all, or_text, decimal}
use sysadmin_mcp_assisstant.Changes.Shapes.{
  Action, Recovery, ManagedFile, Package, Preview, Snapshot, RolloutHost, Rollout, Evidence, Change,
}

pub record Printer : Type 0 where
  pub moment : String → String
  pub number : String → String
  pub raw : List Evidence → String

-- Whether `x && …` shows something.
abbrev truthy : Option String → Bool
truthy x = not (is_blank (or_else x ""))

-- `{ effect: … }` of an action.
abbrev bare : Action → Preview
bare a = record {
  effect = concat (replace_all b'_' " " a.action ∷ " " ∷ a.target ∷ " on " ∷ a.host ∷ []);
  service_impact = none;
  validation = none;
  rollback_strategy = none;
  recovery_snapshot = none;
  managed_file = none;
  package_ = none;
  service = none;
}

-- `item.preview || item.actions.map(…)`
unfoldable pub effects : Change → List Preview
effects c = or_else c.preview (map bare c.actions)

abbrev names : List String → String
names xs = or_text (join ", " xs) "none"

-- `item.evidence.at(-1)?.fleet_rollout`
abbrev rollout_of : Option Evidence → Option Rollout
rollout_of none = none
rollout_of (some e) = e.fleet_rollout

module _ (l : Printer) where
  -- `Updated …`, the approval, `Rollback available` and the hashes.
  unfoldable pub stamps_texts : Change → List String
  stamps_texts c =
      (concat ("Updated " ∷ l.moment c.updated_at ∷ []))
        ∷ when (truthy c.approval_expires_at) (
            (concat (
              "Approved by "
              ∷ or_else c.approval_owner ""
              ∷ " · expires "
              ∷ l.moment (or_else c.approval_expires_at "")
              ∷ []))
            ∷ [])
      ++ (when c.rollback_available ("Rollback available" ∷ [])
          ++ (concat ("plan " ∷ c.plan_hash ∷ []))
            ∷ when (truthy c.diff_hash) ((concat ("diff " ∷ or_else c.diff_hash "" ∷ [])) ∷ []))

  abbrev recovery_texts : Option Recovery → List String
  recovery_texts none = []
  recovery_texts (some r) =
      (concat ("Pre-approval backup verified: " ∷ r.reference ∷ " · " ∷ r.checksum ∷ [])) ∷ []

  abbrev file_texts : Option ManagedFile → List String
  file_texts none = []
  file_texts (some f) =
      (concat (
        f.resolved_path ∷ " · " ∷ f.owner ∷ ":" ∷ f.group ∷ " · " ∷ f.mode ∷ " · validator "
        ∷ f.validator ∷ []))
      ∷ f.diff
      ∷ when f.diff_truncated
          ("Diff was bounded; approval is disabled until policy permits a complete preview." ∷ [])

  abbrev package_texts : Option Package → List String
  package_texts none = []
  package_texts (some k) =
      (concat (
        k.package_name
        ∷ " → "
        ∷ k.requested_version
        ∷ " · download "
        ∷ l.number k.download_bytes
        ∷ " B · disk "
        ∷ l.number k.disk_bytes
        ∷ " B"
        ∷ []))
      ∷ (concat (
          "Dependencies: "
          ∷ names k.dependencies
          ∷ " · Removals: "
          ∷ names k.removals
          ∷ " · Reboot: "
          ∷ (if k.reboot_required then "required" else "no")
          ∷ []))
      ∷ (concat
          ("Repositories/keys unchanged · Verify services: " ∷ names k.dependent_services ∷ []))
      ∷ (concat ("Rollback: " ∷ k.rollback_limitation ∷ []))
      ∷ []

  unfoldable pub preview_texts : Preview → List String
  preview_texts x =
      x.effect
        ∷ when (truthy x.service_impact) (
            (concat (
              "Impact: "
              ∷ or_else x.service_impact ""
              ∷ " · Validate: "
              ∷ or_else x.validation ""
              ∷ " · Rollback: "
              ∷ or_else x.rollback_strategy ""
              ∷ []))
            ∷ [])
      ++ (recovery_texts x.recovery_snapshot
          ++ (file_texts x.managed_file ++ package_texts x.package_))

  abbrev previews_texts : List Preview → List String
  previews_texts [] = []
  previews_texts (x ∷ xs) = preview_texts x ++ previews_texts xs

  abbrev services_texts : List Preview → List String
  services_texts [] = []
  services_texts (x ∷ xs) = elim x.service [
    | none ↦ services_texts xs
    | some s ↦
        (concat (s.unit ∷ " · " ∷ s.impact ∷ []))
        ∷ (concat (
            "Configuration validated: "
            ∷ (if s.configuration_validated then "yes" else "no")
            ∷ " · Checks: "
            ∷ join ", " s.verification_checks
            ∷ []))
        ∷ (concat (s.verification_rule ∷ " · Failure: " ∷ s.clear_failure_action ∷ []))
        ∷ services_texts xs
  ]

  abbrev snapshots_texts : List Snapshot → List String
  snapshots_texts [] = []
  snapshots_texts (s ∷ ss) =
      (concat (s.snapshot_type ∷ " · verified · expires " ∷ l.moment s.expires_at ∷ []))
      ∷ (concat (s.reference ∷ " · sha256 " ∷ s.checksum ∷ []))
      ∷ snapshots_texts ss

  abbrev stages_snapshots : List Evidence → List String
  stages_snapshots [] = []
  stages_snapshots (e ∷ es) = snapshots_texts (or_else e.snapshots []) ++ stages_snapshots es

  -- The stages with their snapshots.
  unfoldable pub evidence_texts : List Evidence → List String
  evidence_texts es = when (not (is_empty es)) (
      (join " · " (
        map (λ (e : Evidence). concat (e.stage ∷ ": " ∷ e.status ∷ " (remote mutation: no)" ∷ []))
          es))
      ∷ stages_snapshots es)

  abbrev rollout_texts : Option Rollout → List String
  rollout_texts none = []
  rollout_texts (some r) =
      (concat ("Fleet rollout · canary " ∷ r.canary ∷ []))
      ∷ (concat (
          "Concurrency "
          ∷ r.concurrency
          ∷ " · timeout "
          ∷ r.timeout_seconds
          ∷ "s · circuit "
          ∷ r.circuit_breaker
          ∷ (if truthy r.failed_host
              then concat (" · failed host " ∷ or_else r.failed_host "" ∷ [])
              else "")
          ∷ []))
      ∷ map
          (λ (h : RolloutHost).
            (concat ("wave " ∷ decimal (suc h.wave) ∷ " · " ∷ h.host ∷ " · " ∷ h.state ∷ [])))
          r.hosts

  unfoldable pub details_texts : Change → List String
  details_texts c =
      previews_texts (effects c)
      ++ (services_texts (or_else c.preview [])
          ++ (evidence_texts c.evidence
              ++ (rollout_texts (rollout_of (last c.evidence))
                  ++ when (not (is_empty c.evidence)) (
                      (concat ("Raw evidence (" ∷ decimal (length c.evidence) ∷ " events)" ∷ []))
                      ∷ (l.raw c.evidence)
                      ∷ []))))
