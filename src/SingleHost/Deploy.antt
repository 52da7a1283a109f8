-- ===== src/SingleHost/Deploy.antt =====
-- The saga of a single-host deploy and its ledger: single_host.rs. The JSON of a `DeployRecord` is
-- serde's, so writing and reading it are parameters.
use fraisier_core.Common.{String, Option, none, some, List, Result, ok, err, Done}
use fraisier_core.Saga.Types.{FraiseKey, StateStoreError, SagaError, SagaOutcome}
use fraisier_core.Saga.Store.{StateStore}
use fraisier_core.Saga.Driver.{Step, Saga, Std, new, with_step, run_with_state}
use fraisier_core.BlueGreen.Types.{Act}
use fraisier_core.SingleHost.Types.{
  DeployRecord, no_record, SingleHostDeploy, DeployShared, DeployRuntime, no_runtime,
  committed_record, on_world,
}
use fraisier_core.SingleHost.Preflight.{run_preflight}
use fraisier_core.SingleHost.Steps.{
  run_fetch, run_migrate, undo_migrate, run_activate, undo_activate, run_restart, run_health,
  run_verify,
}

-- `enum Phase`
pub data Phase : Type 0 where
  preflight : Phase
  fetch : Phase
  migrate : Phase
  activate : Phase
  restart : Phase
  health : Phase
  verify : Phase

-- `Phase::step_name`
abbrev pub step_name : Phase → String
step_name Phase.preflight = "preflight"
step_name Phase.fetch = "fetch"
step_name Phase.migrate = "migrate"
step_name Phase.activate = "activate"
step_name Phase.restart = "restart"
step_name Phase.health = "health"
step_name Phase.verify = "verify"

module _ {W : Type 0} (shared : DeployShared W) where
  -- `DeployStep::forward`
  abbrev pub forward : Phase → Act (DeployRuntime × W) Done
  forward Phase.preflight e = run_preflight shared.deploy e
  forward Phase.fetch e = run_fetch shared.deploy e
  forward Phase.migrate e = run_migrate shared.deploy e
  forward Phase.activate e = run_activate shared.deploy e
  forward Phase.restart e = on_world (run_restart shared.deploy) e
  forward Phase.health e = on_world (run_health shared.deploy) e
  forward Phase.verify e = on_world (run_verify shared.deploy) e

  -- `DeployStep::compensate`
  abbrev pub compensate : Phase → Act (DeployRuntime × W) Done
  compensate Phase.migrate e = undo_migrate shared.deploy e
  compensate Phase.activate e = on_world (undo_activate shared.deploy shared.prior) e
  compensate _ e = (ok tt, e)

  -- `DeployShared::step`
  abbrev pub step : Phase → Step (DeployRuntime × W)
  step phase = record {
    name = step_name phase;
    forward = λ ctx. forward phase;
    compensate = λ ctx. compensate phase;
  }

  -- The saga that `run_reporting` builds.
  unfoldable pub saga : Saga (DeployRuntime × W)
  saga =
      let saga = new (shared.deploy).fraise (shared.deploy).environment in
      let saga = with_step saga (step Phase.preflight) in
      let saga = with_step saga (step Phase.fetch) in
      let saga = with_step saga (step Phase.migrate) in
      let saga = with_step saga (step Phase.activate) in
      let saga = with_step saga (step Phase.restart) in
      let saga = with_step saga (step Phase.health) in with_step saga (step Phase.verify)

-- `enum DeployError`
pub data DeployError : Type 0 where
  saga_failed : SagaError → DeployError
  store_failed : StateStoreError → DeployError
  ledger_failed : String → DeployError

-- `struct DeployRun`
pub record DeployRun : Type 0 where
  pub outcome : SagaOutcome
  pub warnings : List String

-- `serde_json::to_value` and `from_value` for a `DeployRecord`.
pub record Serde (Json : Type 0) : Type 0 where
  pub to_value : DeployRecord → Result String Json
  pub from_value : Json → Result String DeployRecord

module _ {S Json W : Type 0} (store : StateStore S Json) (std : Std S) (serde : Serde Json)
    (deploy : SingleHostDeploy W) where
  abbrev pub key : FraiseKey
  key = record { fraise = deploy.fraise; environment = deploy.environment }

  abbrev pub shared_of : DeployRecord → DeployShared W
  shared_of prior = record { deploy = deploy; prior = prior }

  -- What follows `record_snapshot`.
  unfoldable pub recorded :
      DeployRun → Result StateStoreError Done × S → Result DeployError DeployRun × S
  recorded report (ok _, s) = (ok report, s)
  recorded report (err e, s) = (err (DeployError.store_failed e), s)

  unfoldable pub write_ledger :
      DeployRun → Result String Json → S → Result DeployError DeployRun × S
  write_ledger report (ok json) s = recorded report (store.record_snapshot key json s)
  write_ledger report (err e) s = (err (DeployError.ledger_failed e), s)

  -- What a saga that ended so leaves in the ledger.
  unfoldable pub finish : SagaOutcome → DeployRuntime → S → Result DeployError DeployRun × S
  finish SagaOutcome.committed runtime s =
      write_ledger (record { outcome = SagaOutcome.committed; warnings = runtime.warnings })
        (serde.to_value (committed_record runtime)) s
  finish (SagaOutcome.rolled_back failed_step reason) runtime s = (
    ok (record {
      outcome = SagaOutcome.rolled_back failed_step reason;
      warnings = runtime.warnings;
    }),
    s,
  )
  finish (SagaOutcome.partial_rollback reason) runtime s = (
    ok (record { outcome = SagaOutcome.partial_rollback reason; warnings = runtime.warnings }),
    s,
  )

  -- What follows the saga.
  unfoldable pub finish_from :
      Result SagaError SagaOutcome × S × (DeployRuntime × W)
      → Result DeployError DeployRun × S × (DeployRuntime × W)
  finish_from (ok outcome, s, (runtime, w)) =
      let (r, s') = finish outcome runtime s in (r, s', (runtime, w))
  finish_from (err e, s, e') = (err (DeployError.saga_failed e), s, e')

  -- What follows the reading of the prior record.
  unfoldable pub run_from :
      Result DeployError DeployRecord
      → S
      → W
      → Result DeployError DeployRun × S × (DeployRuntime × W)
  run_from (ok prior) s w =
      finish_from (run_with_state store std (saga (shared_of prior)) s (no_runtime, w))
  run_from (err e) s w = (err e, s, (no_runtime, w))

  unfoldable pub decode : Result String DeployRecord → Result DeployError DeployRecord
  decode (ok record_read) = ok record_read
  decode (err e) = err (DeployError.ledger_failed e)

  unfoldable pub prior_of : Result StateStoreError (Option Json) → Result DeployError DeployRecord
  prior_of (ok none) = ok no_record
  prior_of (ok (some value)) = decode (serde.from_value value)
  prior_of (err e) = err (DeployError.store_failed e)

  unfoldable pub run_reporting : S → W → Result DeployError DeployRun × S × (DeployRuntime × W)
  run_reporting s w = run_from (prior_of (store.current_snapshot key s)) s w

  -- `SingleHostDeploy::run`
  abbrev pub outcome_of : Result DeployError DeployRun → Result DeployError SagaOutcome
  outcome_of (ok report) = ok report.outcome
  outcome_of (err e) = err e

  unfoldable pub run : S → W → Result DeployError SagaOutcome × S × (DeployRuntime × W)
  run s w = let (r, s', e) = run_reporting s w in (outcome_of r, s', e)
