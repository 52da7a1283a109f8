-- ===== src/BlueGreen/Samples.antt =====
-- A deploy over a small world: its theorems at that world.
use fraisier_core.Common.{
  ℕ, ◌≡◌, refl, subst, Option, false, format, String, true, none, some, [], ◌∷◌, ok, err, Result,
}
use fraisier_core.Saga.Types.{FraiseKey, SagaOutcome}
use fraisier_core.Saga.Driver.{Std, context, new, with_step, run_with_state}
use fraisier_core.Saga.Memory.{MemoryInner, new as empty_store, memory_store}
use fraisier_core.Saga.Memory.Contract.{is_locked, memory_store-Locks, memory_store-Records}
use fraisier_core.Saga.Stages.{Ended, run_with_state-Ended}
use fraisier_core.Budget.{BudgetSnapshot, saturating_add, evaluate as weigh_budget}
use fraisier_core.Gate.Evaluate.{
  judge_policy, baseline_verdict, window_verdict, from_advertised, evaluate,
}
use fraisier_core.Gate.Admit.{
  inspect, after_describe, inspect_described, after_preflight, inspected, admit, resolve,
}
use fraisier_core.Common.Map.{lookup, insert, contains, remove}
use fraisier_core.Saga.Types.{show_error}
use fraisier_core.Saga.Key.{slug}
use fraisier_core.Saga.Driver.{
  after_compensate, transition, after_release, run_inner, execute, execute_from, after_forward,
  rollback, rollback_from,
}
use fraisier_core.Saga.Memory.{
  push, remember_key, acquire_lock, release_lock, record_state, record_event,
}
use fraisier_core.BlueGreen.Preflight.{
  run_preflight, check_readiness, certify, check_budget, judge_budget,
}
use fraisier_core.BlueGreen.Deploy.{
  run_provision_green, after_provision, run_migrate, run_health_gate, run_swap, swap_from, switch,
  run_hold, undo_swap, switch_back, undo_provision_green, reap_if,
}
use fraisier_core.BlueGreen.Types.{TrafficTarget, BgRuntime, no_runtime, BgShared}
use fraisier_core.BlueGreen.Deploy.{deploy, run}
use fraisier_core.BlueGreen.Traffic.{Steers}
use fraisier_core.BlueGreen.Swap.{Before, After, deploy-Stages, Routed, run-Routed}

abbrev blue : TrafficTarget
blue = record { name = "blue" }

abbrev green : TrafficTarget
green = record { name = "green" }

-- The world is the live target and a count of calls; the hold window finds green broken.
abbrev World : Type 0
World = TrafficTarget × ℕ

abbrev shared : BgShared World String
shared = record {
  fraise = "shop";
  environment = "prod";
  green = green;
  hold = 60;
  green_pool = 20;
  budget_margin = 10;
  migration = record {
    describe = λ w. (
      ok (record {
        name = "confiture";
        version = "1";
        protocol_version = 1;
        capabilities = "preflight" ∷ "window_safe" ∷ [];
      }),
      w,
    );
    preflight = λ w.
        (ok (record { ok = true; issues = []; window_safe = some true; change_set = none }), w);
  };
  up = λ w. (ok tt, w);
  traffic = record { current_target = λ w. (ok w.0, w); switch_to = λ t w. (ok tt, (t, w.1)) };
  fleet = record {
    provision_green = λ w. (ok tt, w);
    green_healthy = λ w. (true, w);
    watch_green = λ hold w. (err "green answers 500", w);
    reap_green = λ w. (ok tt, w);
    reap_blue = λ w. (ok tt, w);
  };
  budget = some (λ w. (ok (record { max_connections = 100; current = 40 }), w));
  policy = record { policy = none; hook = none };
  database_readiness = none;
  show = λ e. e;
}

abbrev live : World → TrafficTarget
live w = w.0

-- What the budget's probe leaves alone, if there is a probe.
abbrev Probed : Option (World → Result String BudgetSnapshot × World) → World → Type 0
Probed none w = Unit
Probed (some probe) w = live (probe w).1 ≡ live w

steers : Steers shared live
steers = record {
  reads = λ w w' t e. cc;
  reading = λ w. refl;
  moves = λ t w w' e. cc;
  fails = λ t w w' x e. cc;
  describe = λ w. refl;
  preflight = λ w. refl;
  up = λ w. refl;
  provision_green = λ w. refl;
  green_healthy = λ w. refl;
  watch_green = λ hold w. refl;
  reap_green = λ w. refl;
  reap_blue = λ w. refl;
  probing = λ probe e w. subst (λ o. Probed o w) e refl;
  asking = λ hook e request w. cc;
  looking_up = λ probe e w. cc;
  checking = λ probe e dsn w. cc;
}

abbrev Inner : Type 0
Inner = MemoryInner (Unit {0})

abbrev hash : FraiseKey → ℕ
hash key = 7

abbrev std : Std Inner
std = record { now = λ s. 7; is_alphanumeric = λ c. true; is_whitespace = λ c. false }

abbrev empty : Inner
empty = empty_store

program : Unit {0}
unfolding run deploy new with_step run_with_state run_inner execute execute_from after_forward
    rollback rollback_from after_compensate transition after_release acquire_lock release_lock
    record_state record_event push remember_key is_locked slug lookup insert contains remove format
    show_error run_preflight check_readiness inspect after_describe inspect_described
    after_preflight inspected certify admit resolve evaluate judge_policy baseline_verdict
    window_verdict from_advertised check_budget weigh_budget saturating_add judge_budget
    run_provision_green after_provision run_migrate run_health_gate run_swap swap_from switch
    run_hold undo_swap switch_back undo_provision_green reap_if
program = tt

-- The hold window fails, and the traffic goes back to blue.
rolled_back : (run shared (memory_store hash) std empty (blue, 0)).2.1.0 ≡ blue
unfolding program
rolled_back = refl

run-Routed_example :
    (outcome : SagaOutcome) × (s' : Inner) × (e' : BgRuntime × World) × (run shared
        (memory_store hash)
        std
        empty
        (blue, 0)
      ≡ (ok outcome, s', e'))
    × Routed shared live steers blue outcome e'.1
unfolding program
run-Routed_example =
    run-Routed (memory_store hash) std shared live steers
      (memory_store-Locks hash (deploy shared).key) (memory_store-Records hash (deploy shared).key)
      empty (blue, 0) refl

run_with_state-Ended_example :
    (outcome : SagaOutcome) × (s' : Inner) × (e' : BgRuntime × World) × (run_with_state
        (memory_store hash)
        std
        (deploy shared)
        empty
        (no_runtime, (blue, 0))
      ≡ (ok outcome, s', e'))
    × Ended (Before shared live steers blue) (After shared live steers blue) outcome e'
unfolding program
run_with_state-Ended_example =
    run_with_state-Ended (memory_store hash) std (deploy shared)
      (memory_store-Locks hash (deploy shared).key) (memory_store-Records hash (deploy shared).key)
      (Before shared live steers blue) (Before shared live steers blue)
      (After shared live steers blue) (After shared live steers blue)
      (deploy-Stages shared live steers (context (deploy shared).key) blue) empty
      (no_runtime, (blue, 0)) refl refl
