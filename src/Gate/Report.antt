-- ===== src/Gate/Report.antt =====
-- The preflight report and its change-set: crates/fraisier-core/src/adapter_axes.rs. Decoding them
-- from JSON is serde's.
use fraisier_core.Common.{
  ℕ, String, Bool, true, false, Option, none, some, List, [], ltb, if◌then◌else◌, filter,
  filter_map, format, ◌∷◌, to_string, Result, ok, err,
}
use fraisier_core.Gate.Tier.{RiskTier, max_tier}

-- `enum Severity`
pub data Severity : Type 0 where
  error : Severity
  warning : Severity
  info : Severity

-- `struct PreflightIssue`
pub record PreflightIssue : Type 0 where
  pub severity : Severity
  pub code : String
  pub message : String
  pub migration : Option String

-- `struct SchemaChange`
pub record SchemaChange : Type 0 where
  pub kind : String
  pub object : String
  pub migration : Option String
  pub tier : Option RiskTier
  pub detail : Option String

-- `SchemaChange::new`, and its builders.
unfoldable pub new_change : String → String → SchemaChange
new_change kind object = record {
  kind = kind;
  object = object;
  migration = none;
  tier = none;
  detail = none;
}

unfoldable pub with_migration : String → SchemaChange → SchemaChange
with_migration migration change = record change { migration = some migration }

unfoldable pub with_tier : RiskTier → SchemaChange → SchemaChange
with_tier tier change = record change { tier = some tier }

unfoldable pub with_detail : String → SchemaChange → SchemaChange
with_detail detail change = record change { detail = some detail }

-- `RISK_CONTRACT_VERSION`
abbrev pub risk_contract_version : ℕ
risk_contract_version = 1

-- `struct ChangeSet`
pub record ChangeSet : Type 0 where
  pub contract_version : ℕ
  pub changes : List SchemaChange

-- `ChangeSet::new`
unfoldable pub new_change_set : List SchemaChange → ChangeSet
new_change_set changes = record { contract_version = risk_contract_version; changes = changes }

unfoldable pub with_contract_version : ℕ → ChangeSet → ChangeSet
with_contract_version contract_version change_set = record change_set {
  contract_version = contract_version;
}

-- `ChangeSet::worst_tier`
unfoldable pub worst_tier : ChangeSet → Option RiskTier
worst_tier change_set = max_tier (filter_map (λ change. change.tier) change_set.changes)

abbrev pub is_unclassified : SchemaChange → Bool
is_unclassified change = elim change.tier [ none ↦ true | some _ ↦ false ]

-- `ChangeSet::unclassified`
unfoldable pub unclassified : ChangeSet → List SchemaChange
unclassified change_set = filter is_unclassified change_set.changes

-- `struct PreflightReport`
pub record PreflightReport : Type 0 where
  pub ok : Bool
  pub issues : List PreflightIssue
  pub window_safe : Option Bool
  pub change_set : Option ChangeSet

-- `PreflightReport::new`, and its builders.
unfoldable pub new_report : Bool → PreflightReport
new_report passes = record { ok = passes; issues = []; window_safe = none; change_set = none }

unfoldable pub with_issues : List PreflightIssue → PreflightReport → PreflightReport
with_issues issues report = record report { issues = issues }

unfoldable pub with_window_safe : Bool → PreflightReport → PreflightReport
with_window_safe window_safe report = record report { window_safe = some window_safe }

unfoldable pub with_change_set : ChangeSet → PreflightReport → PreflightReport
with_change_set change_set report = record report { change_set = some change_set }

-- `enum ChangeSetUnavailable`
pub data ChangeSetUnavailable : Type 0 where
  not_emitted : ChangeSetUnavailable
  version_too_new : (found understood : ℕ) → ChangeSetUnavailable

-- Its `Display`.
unfoldable pub show_unavailable : ChangeSetUnavailable → String
show_unavailable not_emitted =
    "the migration adapter emitted no usable change-set; nothing classified the pending schema changes"
show_unavailable (version_too_new found understood) = format (
    "the migration adapter emitted a change-set at risk-contract version "
    ∷ to_string found
    ∷ ", but this build of fraisier understands version "
    ∷ to_string understood
    ∷ "; upgrade fraisier or pin the adapter"
    ∷ [])

readable : ChangeSet → Result ChangeSetUnavailable ChangeSet
readable change_set =
    if ltb risk_contract_version change_set.contract_version
    then err (version_too_new change_set.contract_version risk_contract_version)
    else ok change_set

-- `PreflightReport::usable_change_set`
unfoldable pub usable_change_set : PreflightReport → Result ChangeSetUnavailable ChangeSet
unfolding readable
usable_change_set report = elim report.change_set [
  | none ↦ err not_emitted
  | some change_set ↦ readable change_set
]
