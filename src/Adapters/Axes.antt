-- ===== src/Adapters/Axes.antt =====
-- The adapter axes that a deploy calls, adapter_axes.rs: records of operations that may change the
-- world `W`.
use fraisier_core.Common.{
  String, Bool, true, false, not, Option, none, some, List, [], ◌∷◌, map, filter, length, format,
  join, to_string, str_eq, Result, Done,
}
use fraisier_core.Gate.Report.{PreflightReport}
use fraisier_core.Gate.Admit.{AdapterDescription, MigrationAdapter}
use fraisier_core.Adapters.Errors.{AdapterError}
use fraisier_core.Adapters.Context.{Revision, HostId, StagedArtifact, AdapterCtx}

pub record MigrationOutcome : Type 0 where
  pub from : Option Revision
  pub to : Option Revision
  pub applied : List Revision
  pub log : String

pub record VerifyCheck : Type 0 where
  pub name : String
  pub ok : Bool
  pub detail : Option String

pub record VerifyReport : Type 0 where
  pub ok : Bool
  pub checks : List VerifyCheck
  pub was_skipped : Bool

-- `VerifyReport::new`, and its builders.
abbrev pub new_report : Bool → VerifyReport
new_report verdict = record { ok = verdict; checks = []; was_skipped = false }

abbrev pub with_checks : List VerifyCheck → VerifyReport → VerifyReport
with_checks checks report = record report { checks = checks }

abbrev pub with_skipped : Bool → VerifyReport → VerifyReport
with_skipped was_skipped report = record report { was_skipped = was_skipped }

-- With `str::trim` as a parameter.
module _ (trim : String → String) where
  unfoldable pub show_detail : String → Option String → String
  show_detail name none = name
  show_detail name (some detail) = elim (str_eq (trim detail) "") [
    | true ↦ name
    | false ↦ format (name ∷ " (" ∷ trim detail ∷ ")" ∷ [])
  ]

  abbrev pub failed_checks : VerifyReport → List String
  failed_checks report =
      map (λ check. show_detail check.name check.detail)
        (filter (λ check. not check.ok) report.checks)

  unfoldable pub show_failed : List String → String
  show_failed [] = "post-migration verify reported a failure without a failing check"
  show_failed (check ∷ checks) = format (
      "post-migration verify failed "
      ∷ to_string (length (check ∷ checks))
      ∷ " check(s): "
      ∷ join ", " (check ∷ checks)
      ∷ [])

  -- `VerifyReport::failure_message`
  unfoldable pub failure_message : VerifyReport → String
  failure_message report = elim report.was_skipped [
    | true ↦
        "post-migration verify verified nothing: the migration adapter reported the run as skipped"
    | false ↦ show_failed (failed_checks report)
  ]

-- `trait MigrationAdapter`, the whole axis.
pub record MigrationAxis (W : Type 0) : Type 0 where
  pub describe : W → Result AdapterError AdapterDescription × W
  pub current_revision : AdapterCtx → W → Result AdapterError (Option Revision) × W
  pub up : AdapterCtx → Option Revision → W → Result AdapterError MigrationOutcome × W
  pub down_to : AdapterCtx → Revision → W → Result AdapterError MigrationOutcome × W
  pub verify : AdapterCtx → W → Result AdapterError VerifyReport × W
  pub preflight : AdapterCtx → W → Result AdapterError PreflightReport × W
  pub owns_database : Bool

-- The axis as the policy gate sees it.
abbrev pub inspected_in :
    {W : Type 0} → AdapterCtx → MigrationAxis W → MigrationAdapter W AdapterError
inspected_in ctx axis = record { describe = axis.describe; preflight = axis.preflight ctx }

pub record ArtifactAdapter (W : Type 0) : Type 0 where
  pub stage : AdapterCtx → HostId → W → Result AdapterError StagedArtifact × W
  pub activate : AdapterCtx → HostId → StagedArtifact → W → Result AdapterError Done × W

pub record ServiceAdapter (W : Type 0) : Type 0 where
  pub restart : AdapterCtx → HostId → W → Result AdapterError Done × W

pub record HealthStatus : Type 0 where
  pub healthy : Bool
  pub detail : Option String

pub record HealthAdapter (W : Type 0) : Type 0 where
  pub check : AdapterCtx → HostId → W → Result AdapterError HealthStatus × W
