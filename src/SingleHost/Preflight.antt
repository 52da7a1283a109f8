-- ===== src/SingleHost/Preflight.antt =====
-- The preflight step of a single-host deploy: `run_preflight` of single_host.rs and below it. A log
-- record is left out.
use fraisier_core.Common.{
  String, Bool, true, false, ◌&&◌, is_none, Option, none, some, List, [], ◌∷◌, ◌++◌, map, filter,
  length, format, join, to_string, Result, ok, err, Done,
}
use fraisier_core.Saga.Types.{SagaError}
use fraisier_core.Gate.Report.{Severity, PreflightIssue, PreflightReport}
use fraisier_core.Gate.Evaluate.{Baseline, from_advertised}
use fraisier_core.Gate.Admit.{AdapterDescription, Inspection, inspect, inspect_described, admit}
use fraisier_core.BlueGreen.Types.{Act, pure, call, ◌>>=◌}
use fraisier_core.BlueGreen.Preflight.{check}
use fraisier_core.Adapters.Errors.{show}
use fraisier_core.Adapters.Context.{Revision, AdapterCtx, secret}
use fraisier_core.Adapters.Axes.{inspected_in}
use fraisier_core.SingleHost.Rehearsal.{
  is_fresh_dump, ThrowawayDb, RehearsalError, RehearsalReport, RehearsalDb, database_url_secret,
  show_rehearsal, remedy, against_throwaway, classifies_deeply, provision, rehearse_on,
  run_restore_rehearsal,
}
use fraisier_core.SingleHost.Types.{SingleHostDeploy, shared_ctx, DeployRuntime, failed, on_world}

abbrev pub is_error : Severity → Bool
is_error Severity.error = true
is_error Severity.warning = false
is_error Severity.info = false

abbrev pub show_place : Option String → String
show_place none = ""
show_place (some migration) = format (" (" ∷ migration ∷ ")" ∷ [])

-- One blocking finding.
unfoldable pub show_issue : PreflightIssue → String
show_issue issue = format (issue.code ∷ show_place issue.migration ∷ ": " ∷ issue.message ∷ [])

unfoldable pub judge_lint : {W : Type 0} → List String → Act W Done
judge_lint [] w = (ok tt, w)
judge_lint (issue ∷ issues) w = (
  err (
      SagaError.step_failed "preflight" (
        format (
          "forward-compatibility preflight found "
          ∷ to_string (length (issue ∷ issues))
          ∷ " blocking issue(s): "
          ∷ join "; " (issue ∷ issues)
          ∷ []))),
  w,
)

unfoldable pub lint_report : {W : Type 0} → Option PreflightReport → Act W Done
lint_report none w = (ok tt, w)
lint_report (some report) w =
    judge_lint (map show_issue (filter (λ issue. is_error issue.severity) report.issues)) w

-- `run_forward_compat_lint`
abbrev pub run_forward_compat_lint : {W : Type 0} → Inspection → Act W Done
run_forward_compat_lint inspection = lint_report inspection.report

-- `Inspection::default`
unfoldable pub no_inspection : Inspection
no_inspection = record { adapter = none; capabilities = from_advertised []; report = none }

-- `leaked`
unfoldable pub leaked : ThrowawayDb → String → String
leaked throwaway error = format (
    "the restore-rehearsal throwaway database '" ∷ throwaway.name
    ∷ "' was not dropped and must be removed by hand: " ∷ error ∷ [])

unfoldable pub rehearsal_failed : RehearsalError → SagaError
rehearsal_failed error = SagaError.step_failed "preflight" (
    format (
      "restore-rehearsal preflight failed: "
      ∷ show_rehearsal error
      ∷ ". "
      ∷ remedy error
      ∷ ", or bypass this check with `--skip-preflight` (or `[migration].preflight_mode = \"off\"`)."
      ∷ []))

abbrev pub warn : String → DeployRuntime → DeployRuntime
warn warning runtime = record runtime { warnings = runtime.warnings ++ warning ∷ [] }

-- The warning that a teardown's result calls for.
unfoldable pub note_leak : ThrowawayDb → Result String Done → DeployRuntime → DeployRuntime
note_leak throwaway (ok _) runtime = runtime
note_leak throwaway (err error) runtime = warn (leaked throwaway error) runtime

unfoldable pub note_warning : Option String → DeployRuntime → DeployRuntime
note_warning none runtime = runtime
note_warning (some warning) runtime =
    warn
      (format (
        "the restore-rehearsal throwaway database was not dropped and must be removed by hand: "
        ∷ warning ∷ []))
      runtime

module _ {W : Type 0} (deploy : SingleHostDeploy W) where
  abbrev pub ctx : AdapterCtx
  ctx = shared_ctx deploy

  -- The guard of the readiness check.
  unfoldable pub check_readiness :
      Option (String → W → Result String (List String) × W) → Option Revision → Act W Done
  check_readiness none rollback_to w = (ok tt, w)
  check_readiness (some probe) (some revision) w = (ok tt, w)
  check_readiness (some probe) none w =
      check show
        (record { live_dsn = λ w. (secret deploy.env database_url_secret ctx, w); unready = probe })
        w

  -- `inspect`
  unfoldable pub inspect_adapter : Option AdapterDescription → Act W Inspection
  inspect_adapter described w = elim deploy.forward_compatible_lint [
    | false ↦ (ok no_inspection, w)
    | true ↦ elim described [
      | some described ↦
          call (failed "preflight")
            (inspect_described (inspected_in ctx deploy.migration) described) w
      | none ↦ call (failed "preflight") (inspect (inspected_in ctx deploy.migration)) w
    ]
  ]

  unfoldable pub gate_unless : Option Revision → Inspection → Act W Done
  gate_unless (some revision) inspection w = (ok tt, w)
  gate_unless none inspection w =
      call (SagaError.step_failed "preflight")
        (admit deploy.policy ctx.fraise ctx.environment Baseline.no_rule inspection.capabilities
          inspection.report)
        w

  abbrev pub run_policy_gate : Inspection → Act W Done
  run_policy_gate = gate_unless deploy.rollback_to

  abbrev pub lint_after : Inspection → Done → Act W Done
  lint_after inspection _ = run_forward_compat_lint inspection

  -- The gate and the lint.
  abbrev pub judge : Inspection → Act W Done
  judge inspection = run_policy_gate inspection >>= lint_after inspection

  -- What follows the rehearsal.
  unfoldable pub keep_report :
      DeployRuntime
      → Result RehearsalError RehearsalReport × W
      → Result SagaError Done × (DeployRuntime × W)
  keep_report runtime (ok report, w) = (ok tt, (note_warning report.teardown_warning runtime, w))
  keep_report runtime (err error, w) = (err (rehearsal_failed error), (runtime, w))

  unfoldable pub run_restore_rehearsal_step : RehearsalDb W → Act (DeployRuntime × W) Done
  run_restore_rehearsal_step db (runtime, w) =
      keep_report runtime
        (run_restore_rehearsal deploy.env db deploy.migration ctx deploy.backup_source w)

  unfoldable pub rehearse_if :
      Option (RehearsalDb W) → Option Revision → Act (DeployRuntime × W) Done
  rehearse_if none rollback_to e = (ok tt, e)
  rehearse_if (some db) (some revision) e = (ok tt, e)
  rehearse_if (some db) none e = run_restore_rehearsal_step db e

  abbrev pub rehearse_after : Done → Act (DeployRuntime × W) Done
  rehearse_after _ = rehearse_if deploy.restore_rehearsal deploy.rollback_to

  abbrev pub judge_then_rehearse : Inspection → Act (DeployRuntime × W) Done
  judge_then_rehearse inspection = on_world (judge inspection) >>= rehearse_after

  -- The static order.
  abbrev pub static_preflight : Option AdapterDescription → Act (DeployRuntime × W) Done
  static_preflight described = on_world (inspect_adapter described) >>= judge_then_rehearse

  abbrev pub rehearse_deeply : ThrowawayDb → Done → Act W Done
  rehearse_deeply throwaway _ =
      call rehearsal_failed (rehearse_on deploy.migration ctx throwaway) >>= λ _. pure tt

  abbrev pub judge_deeply : ThrowawayDb → Inspection → Act W Done
  judge_deeply throwaway inspection = judge inspection >>= rehearse_deeply throwaway

  abbrev pub inspect_deeply : AdapterDescription → ThrowawayDb → Act W Inspection
  inspect_deeply described throwaway = call (failed "preflight") (
      inspect_described (inspected_in (against_throwaway ctx throwaway) deploy.migration) described)

  unfoldable pub deep_checks : AdapterDescription → ThrowawayDb → Act W Done
  deep_checks described throwaway = inspect_deeply described throwaway >>= judge_deeply throwaway

  -- What follows the provisioning: the checks, and the teardown whatever they answer.
  unfoldable pub check_and_drop :
      RehearsalDb W → AdapterDescription → ThrowawayDb → Act (DeployRuntime × W) Done
  check_and_drop db described throwaway (runtime, w) =
      let (result, w₁) = deep_checks described throwaway w in
      let (torn, w₂) = db.teardown throwaway w₁ in (result, (note_leak throwaway torn runtime, w₂))

  abbrev pub run_deep_preflight : RehearsalDb W → AdapterDescription → Act (DeployRuntime × W) Done
  run_deep_preflight db described =
      on_world (call rehearsal_failed (provision deploy.env db ctx deploy.backup_source))
      >>= check_and_drop db described

  abbrev pub fits_deep : Bool
  fits_deep =
      deploy.forward_compatible_lint
      && (is_none deploy.rollback_to && is_fresh_dump deploy.backup_source)

  unfoldable pub deep_rehearsal : Option (RehearsalDb W)
  deep_rehearsal = elim deploy.restore_rehearsal [
    | none ↦ none
    | some db ↦ elim fits_deep [ true ↦ some db | false ↦ none ]
  ]

  unfoldable pub choose_order : RehearsalDb W → AdapterDescription → Act (DeployRuntime × W) Done
  choose_order db description e = elim (classifies_deeply description) [
    | true ↦ run_deep_preflight db description e
    | false ↦ static_preflight (some description) e
  ]

  unfoldable pub preflight_with : Option (RehearsalDb W) → Act (DeployRuntime × W) Done
  preflight_with none e = static_preflight none e
  preflight_with (some db) e =
      (on_world (call (failed "preflight") deploy.migration.describe) >>= choose_order db) e

  abbrev pub preflight_after : Done → Act (DeployRuntime × W) Done
  preflight_after _ = preflight_with deep_rehearsal

  unfoldable pub run_preflight : Act (DeployRuntime × W) Done
  run_preflight =
      on_world (check_readiness deploy.database_readiness deploy.rollback_to) >>= preflight_after
