-- ===== src/SingleHost/Steps.antt =====
-- The other steps of a single-host deploy and their compensations: single_host.rs.
use mathlib.Core.Option
use fraisier_core.Common.{
  String, Bool, true, false, Option, none, some, [], ◌∷◌, format, if◌then◌else◌, Result, ok, err,
  Done,
}
use fraisier_core.Saga.Types.{SagaError}
use fraisier_core.BlueGreen.Types.{Act, call, ◌>>=◌}
use fraisier_core.Adapters.Errors.{AdapterError}
use fraisier_core.Adapters.Context.{Revision, StagedArtifact, AdapterCtx}
use fraisier_core.Adapters.Axes.{MigrationOutcome, VerifyReport, failure_message, HealthStatus}
use fraisier_core.SingleHost.Types.{
  DeployRecord, SingleHostDeploy, shared_ctx, DeployRuntime, failed, on_world,
}

module _ {W : Type 0} (deploy : SingleHostDeploy W) where
  -- What follows `stage`.
  unfoldable pub keep_staged :
      DeployRuntime
      → Result AdapterError StagedArtifact × W
      → Result SagaError Done × (DeployRuntime × W)
  keep_staged runtime (ok staged, w) = (ok tt, (record runtime { staged = some staged }, w))
  keep_staged runtime (err e, w) = (err (failed "fetch" e), (runtime, w))

  unfoldable pub run_fetch : Act (DeployRuntime × W) Done
  run_fetch (runtime, w) =
      keep_staged runtime (deploy.artifact.stage (shared_ctx deploy) deploy.host w)

  -- The context of a migration from a staged release that is, or is not, a local directory.
  unfoldable pub in_release : StagedArtifact → Bool → AdapterCtx
  in_release staged is_dir =
      if is_dir then record (shared_ctx deploy) { workdir = staged.path } else shared_ctx deploy

  unfoldable pub staged_ctx : Option StagedArtifact → W → AdapterCtx
  staged_ctx none w = shared_ctx deploy
  staged_ctx (some staged) w = in_release staged (deploy.is_dir staged.path w)

  abbrev pub migration_ctx : DeployRuntime → W → AdapterCtx
  migration_ctx runtime = staged_ctx runtime.staged

  -- What follows `down_to(target)`.
  unfoldable pub keep_target :
      Revision
      → DeployRuntime
      → Result AdapterError MigrationOutcome × W
      → Result SagaError Done × (DeployRuntime × W)
  keep_target target runtime (ok outcome, w) =
      (ok tt, (record runtime { new_revision = some target }, w))
  keep_target target runtime (err e, w) = (err (failed "migrate" e), (runtime, w))

  -- What follows `up`.
  unfoldable pub keep_outcome :
      DeployRuntime
      → Result AdapterError MigrationOutcome × W
      → Result SagaError Done × (DeployRuntime × W)
  keep_outcome runtime (ok outcome, w) = (
    ok tt,
    (record runtime { new_revision = Option.or_else outcome.to runtime.previous_revision }, w),
  )
  keep_outcome runtime (err e, w) = (err (failed "migrate" e), (runtime, w))

  unfoldable pub move_schema : Option Revision → AdapterCtx → Act (DeployRuntime × W) Done
  move_schema (some target) ctx (runtime, w) =
      keep_target target runtime (deploy.migration.down_to ctx target w)
  move_schema none ctx (runtime, w) = keep_outcome runtime (deploy.migration.up ctx deploy.target w)

  -- What follows `current_revision`.
  unfoldable pub migrate_from :
      AdapterCtx
      → DeployRuntime
      → Result AdapterError (Option Revision) × W
      → Result SagaError Done × (DeployRuntime × W)
  migrate_from ctx runtime (ok previous, w) =
      move_schema deploy.rollback_to ctx (record runtime { previous_revision = previous }, w)
  migrate_from ctx runtime (err e, w) = (err (failed "migrate" e), (runtime, w))

  unfoldable pub run_migrate : Act (DeployRuntime × W) Done
  run_migrate (runtime, w) =
      let ctx = migration_ctx runtime w in
      migrate_from ctx runtime (deploy.migration.current_revision ctx w)

  -- `map(|_| ())` and `map_err` on a migration's result.
  unfoldable pub forget : Result AdapterError MigrationOutcome × W → Result SagaError Done × W
  forget (ok outcome, w) = (ok tt, w)
  forget (err e, w) = (err (failed "migrate" e), w)

  unfoldable pub move_back : Option Revision → AdapterCtx → Revision → Act W Done
  move_back (some target) ctx previous w = forget (deploy.migration.up ctx (some previous) w)
  move_back none ctx previous w = forget (deploy.migration.down_to ctx previous w)

  unfoldable pub undo_to : Option Revision → Act (DeployRuntime × W) Done
  undo_to none e = (
    err (
        SagaError.step_failed "migrate"
          "cannot roll back the initial migration: there is no prior revision to return the database to (a failed first-ever deploy has no committed state to restore)"),
    e,
  )
  undo_to (some previous) (runtime, w) =
      on_world (move_back deploy.rollback_to (migration_ctx runtime w) previous) (runtime, w)

  unfoldable pub undo_migrate : Act (DeployRuntime × W) Done
  undo_migrate (runtime, w) = elim deploy.migration.owns_database [
    | false ↦ (ok tt, (runtime, w))
    | true ↦ undo_to runtime.previous_revision (runtime, w)
  ]

  unfoldable pub activate_staged : Option StagedArtifact → Act W Done
  activate_staged none w = (
    err (SagaError.step_failed "activate" "no staged artifact to activate (fetch did not run)"),
    w,
  )
  activate_staged (some staged) w =
      call (failed "activate") (deploy.artifact.activate (shared_ctx deploy) deploy.host staged) w

  unfoldable pub run_activate : Act (DeployRuntime × W) Done
  run_activate (runtime, w) = on_world (activate_staged runtime.staged) (runtime, w)

  -- `restart`, as the steps `restart` and `activate` call it.
  unfoldable pub restart_for : String → Act W Done
  restart_for step = call (failed step) (deploy.service.restart (shared_ctx deploy) deploy.host)

  abbrev pub run_restart : Act W Done
  run_restart = restart_for "restart"

  abbrev pub restart_after : Done → Act W Done
  restart_after _ = restart_for "activate"

  unfoldable pub activate_prior : Option StagedArtifact → Act W Done
  activate_prior none w = (
    err (
        SagaError.step_failed "activate"
          "cannot roll back artifact activation: no previously-active artifact is recorded (a failed first-ever deploy has no prior release to restore)"),
    w,
  )
  activate_prior (some previous) w =
      (call (failed "activate") (deploy.artifact.activate (shared_ctx deploy) deploy.host previous)
          >>= restart_after)
        w

  abbrev pub undo_activate : DeployRecord → Act W Done
  undo_activate prior = activate_prior prior.active

  abbrev pub show_detail : Option String → String
  show_detail none = ""
  show_detail (some detail) = format (": " ∷ detail ∷ [])

  unfoldable pub judge_health : HealthStatus → Act W Done
  judge_health status w = elim status.healthy [
    | true ↦ (ok tt, w)
    | false ↦ (
      err (
          SagaError.step_failed "health"
            (format ("health check reported the host unhealthy" ∷ show_detail status.detail ∷ []))),
      w,
    )
  ]

  unfoldable pub run_health : Act W Done
  run_health =
      call (failed "health") (deploy.health.check (shared_ctx deploy) deploy.host) >>= judge_health

  unfoldable pub judge_verify : VerifyReport → Act W Done
  judge_verify report w = elim report.ok [
    | true ↦ (ok tt, w)
    | false ↦ (err (SagaError.step_failed "verify" (failure_message deploy.trim report)), w)
  ]

  unfoldable pub run_verify : Act W Done
  run_verify = call (failed "verify") (deploy.migration.verify (shared_ctx deploy)) >>= judge_verify
