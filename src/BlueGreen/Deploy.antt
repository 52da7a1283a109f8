-- ===== src/BlueGreen/Deploy.antt =====
-- The other steps of a blue-green deploy, and the saga of all of them: blue_green.rs.
use fraisier_core.Common.{String, Bool, true, false, Option, none, some, Result, ok, err, Done}
use fraisier_core.Saga.Types.{SagaError, SagaOutcome}
use fraisier_core.Saga.Store.{StateStore}
use fraisier_core.Saga.Driver.{Step, Saga, Std, new, with_step, run_with_state}
use fraisier_core.BlueGreen.Types.{
  TrafficTarget, BgRuntime, no_runtime, BgShared, failed, Act, call,
}
use fraisier_core.BlueGreen.Preflight.{run_preflight}

module _ {W Err : Type 0} (shared : BgShared W Err) where
  unfoldable pub run_health_gate : Act W Done
  run_health_gate w =
      let (healthy, w') = shared.fleet.green_healthy w in
      (
        elim healthy [
          | true ↦ ok tt
          | false ↦ err (
              failed "health-gate-green"
                "green failed its pre-swap health gate; traffic was not moved")
        ],
        w',
      )

  -- A part of a step that leaves the run state alone.
  abbrev pub lift : Act W Done → BgRuntime × W → Result SagaError Done × (BgRuntime × W)
  lift act (runtime, w) = let (r, w') = act w in (r, (runtime, w'))

  unfoldable pub after_provision :
      BgRuntime → Result SagaError Done × W → Result SagaError Done × (BgRuntime × W)
  after_provision runtime (ok _, w) = (ok tt, (record runtime { green_provisioned = true }, w))
  after_provision runtime (err e, w) = (err e, (runtime, w))

  unfoldable pub run_provision_green : BgRuntime × W → Result SagaError Done × (BgRuntime × W)
  run_provision_green (runtime, w) =
      after_provision runtime (call (failed "provision-green") shared.fleet.provision_green w)

  unfoldable pub run_migrate : Act W Done
  run_migrate = call (λ e. failed "migrate" (shared.show e)) shared.up

  -- `switch_to`, as `run_swap` and `undo_swap` call it.
  unfoldable pub switch : TrafficTarget → Act W Done
  switch target =
      call (λ e. failed "swap-traffic" (shared.show e)) (shared.traffic.switch_to target)

  -- What follows `current_target`.
  unfoldable pub swap_from :
      BgRuntime → Result Err TrafficTarget × W → Result SagaError Done × (BgRuntime × W)
  swap_from runtime (ok prior, w) =
      lift (switch shared.green) (record runtime { prior_target = some prior }, w)
  swap_from runtime (err e, w) = (err (failed "swap-traffic" (shared.show e)), (runtime, w))

  unfoldable pub run_swap : BgRuntime × W → Result SagaError Done × (BgRuntime × W)
  run_swap (runtime, w) = swap_from runtime (shared.traffic.current_target w)

  unfoldable pub switch_back : Option TrafficTarget → Act W Done
  switch_back none w = (ok tt, w)
  switch_back (some prior) w = switch prior w

  unfoldable pub undo_swap : BgRuntime × W → Result SagaError Done × (BgRuntime × W)
  undo_swap (runtime, w) = lift (switch_back runtime.prior_target) (runtime, w)

  unfoldable pub run_hold : Act W Done
  run_hold = call (failed "hold") (shared.fleet.watch_green shared.hold)

  unfoldable pub run_reap : Act W Done
  run_reap = call (failed "reap") shared.fleet.reap_blue

  unfoldable pub reap_if : Bool → Act W Done
  reap_if true w = call (failed "provision-green") shared.fleet.reap_green w
  reap_if false w = (ok tt, w)

  unfoldable pub undo_provision_green : BgRuntime × W → Result SagaError Done × (BgRuntime × W)
  undo_provision_green (runtime, w) = lift (reap_if runtime.green_provisioned) (runtime, w)

-- `enum Phase`
pub data Phase : Type 0 where
  preflight : Phase
  provision_green : Phase
  migrate : Phase
  health_gate_green : Phase
  swap_traffic : Phase
  hold : Phase
  reap : Phase

-- `Phase::step_name`
abbrev pub step_name : Phase → String
step_name Phase.preflight = "preflight"
step_name Phase.provision_green = "provision-green"
step_name Phase.migrate = "migrate"
step_name Phase.health_gate_green = "health-gate-green"
step_name Phase.swap_traffic = "swap-traffic"
step_name Phase.hold = "hold"
step_name Phase.reap = "reap"

module _ {W Err : Type 0} (shared : BgShared W Err) where
  -- `BgStep::forward`
  abbrev pub forward : Phase → BgRuntime × W → Result SagaError Done × (BgRuntime × W)
  forward Phase.preflight e = lift shared (run_preflight shared) e
  forward Phase.provision_green e = run_provision_green shared e
  forward Phase.migrate e = lift shared (run_migrate shared) e
  forward Phase.health_gate_green e = lift shared (run_health_gate shared) e
  forward Phase.swap_traffic e = run_swap shared e
  forward Phase.hold e = lift shared (run_hold shared) e
  forward Phase.reap e = lift shared (run_reap shared) e

  -- `BgStep::compensate`
  abbrev pub compensate : Phase → BgRuntime × W → Result SagaError Done × (BgRuntime × W)
  compensate Phase.swap_traffic e = undo_swap shared e
  compensate Phase.provision_green e = undo_provision_green shared e
  compensate _ e = (ok tt, e)

  -- `BgShared::step`
  abbrev pub step : Phase → Step (BgRuntime × W)
  step phase = record {
    name = step_name phase;
    forward = λ ctx. forward phase;
    compensate = λ ctx. compensate phase;
  }

  -- The saga that `BlueGreenDeploy::run` builds.
  unfoldable pub deploy : Saga (BgRuntime × W)
  deploy =
      let saga = new shared.fraise shared.environment in
      let saga = with_step saga (step Phase.preflight) in
      let saga = with_step saga (step Phase.provision_green) in
      let saga = with_step saga (step Phase.migrate) in
      let saga = with_step saga (step Phase.health_gate_green) in
      let saga = with_step saga (step Phase.swap_traffic) in
      let saga = with_step saga (step Phase.hold) in with_step saga (step Phase.reap)

  -- `BlueGreenDeploy::run`
  unfoldable pub run :
      {S Json : Type 0}
      → StateStore S Json
      → Std S
      → S
      → W
      → Result SagaError SagaOutcome × S × (BgRuntime × W)
  run store std s w = run_with_state store std deploy s (no_runtime, w)
