-- ===== src/Saga/Samples.antt =====
-- Small sagas over the memory store: tests of the driver, and its theorems at these inputs.
use Prim.Native.Char.{code}
use mathlib.Core.Bool.{false≢true}
use fraisier_core.Common.{
  ℕ, ◌+◌, ◌-◌, ◌≡◌, ◌≢◌, refl, String, ◌||◌, ◌&&◌, some, List, [], ◌∷◌, ◌++◌, ok, err, arith, leb,
  ◌==◌, format, eq_iff,
}
use fraisier_core.Common.Map.{lookup, insert, contains, remove}
use fraisier_core.Saga.Types.{
  SagaState, SagaEvent, FraiseKey, DeploymentState, SagaError, SagaOutcome, show_error,
}
use fraisier_core.Saga.Key.{slug}
use fraisier_core.Saga.Redact.{credentials, url_step, urls}
use fraisier_core.Saga.Redact.Fuel.{Scans, urls-Scans}
use fraisier_core.Saga.Redact.Scan.{
  scan, split_at, strip_prefix, split_last, span, strip_prefix_ignore_case,
}
use fraisier_core.Saga.Store.{Locks, Records}
use fraisier_core.Saga.Driver.{
  Step, Saga, Std, new, with_step, with_steps, context, compensation_reason, transition,
  after_compensate, rollback_from, rollback, after_forward, execute_from, execute, after_release,
  run_inner, run_with_state,
}
use fraisier_core.Saga.Lifecycle.{Chain}
use fraisier_core.Saga.Spec.{Runs}
use fraisier_core.Saga.Refinement.{run_with_state-Runs, run_with_state-events}
use fraisier_core.Saga.Atomic.{IsCompensable, AllOrNothing, run_with_state-AllOrNothing}
use fraisier_core.Saga.Keeps.{IsStoreFailure}
use fraisier_core.Saga.Locking.{IsReleased, run_with_state-releases}
use fraisier_core.Saga.Memory.{
  MemoryInner, push, remember_key, acquire_lock, release_lock, record_state, current_state,
  record_event, events, memory_store,
}
use fraisier_core.Saga.Memory.Contract.{
  is_locked, log_of, latest_of, memory_store-Locks, memory_store-Records,
}
use fraisier_core.Saga.Memory.Isolation.{shown, run_with_state-isolated}

abbrev Inner : Type 0
Inner = MemoryInner (Unit {0})

abbrev hash : FraiseKey → ℕ
hash key = 0xdeadbeef

abbrev std : Std Inner
std = record {
  now = λ s. 7;
  is_alphanumeric = λ c. leb b'0' (code c) && leb (code c) b'9' || leb b'a' (code c);
  is_whitespace = λ c. code c == b' ';
}

-- A step counts up, and its compensation counts down.
abbrev count_up : String → Step ℕ
count_up name = record {
  name = name;
  forward = λ ctx n. (ok tt, n + 1);
  compensate = λ ctx n. (ok tt, n - 1);
}

abbrev refusing : String → Step ℕ
refusing name = record {
  name = name;
  forward = λ ctx n. (err (SagaError.step_failed name "no"), n);
  compensate = λ ctx n. (ok tt, n);
}

-- Its compensation reports the connection string that it used.
abbrev leaking : String → Step ℕ
leaking name = record {
  name = name;
  forward = λ ctx n. (ok tt, n + 1);
  compensate = λ ctx n. (err (SagaError.step_failed name "postgresql://app:pw@db/x is down"), n);
}

abbrev saga_of : List (Step ℕ) → Saga ℕ
saga_of steps = record { key = record { fraise = "checkout"; environment = "prod" }; steps = steps }

abbrev good : Saga ℕ
good = saga_of (count_up "fetch" ∷ count_up "migrate" ∷ [])

abbrev failing : Saga ℕ
failing = saga_of (count_up "fetch" ∷ count_up "migrate" ∷ refusing "verify" ∷ [])

abbrev empty : Inner
empty = fraisier_core.Saga.Memory.new

program : Unit {0}
unfolding run_with_state run_inner execute execute_from after_forward rollback rollback_from
    after_compensate transition after_release acquire_lock release_lock record_state record_event
    push remember_key is_locked log_of latest_of slug lookup insert contains remove format
    show_error credentials scan split_at strip_prefix split_last span strip_prefix_ignore_case
    current_state events
program = tt

with_steps_appends :
    with_steps (with_step (new "checkout" "prod") (count_up "fetch")) (count_up "migrate" ∷ [])
    ≡ good
unfolding with_steps with_step new
with_steps_appends = refl

run_good : (run_with_state (memory_store hash) std good empty 5).0 ≡ ok SagaOutcome.committed
unfolding program
run_good = refl

run_failing :
    (run_with_state (memory_store hash) std failing empty 5).0
    ≡ ok (SagaOutcome.rolled_back "verify" "step 'verify' failed: no")
unfolding program
run_failing = refl

run_leaking :
    (run_with_state
      (memory_store hash)
      std
      (saga_of (leaking "migrate" ∷ refusing "verify" ∷ []))
      empty
      5).0
    ≡ ok (
        SagaOutcome.partial_rollback
          "compensation for 'migrate' failed: step 'migrate' failed: postgresql://***@db/x is down")
unfolding program
run_leaking = refl

run_with_state-Runs_example :
    (outcome : SagaOutcome) × (s' : Inner) × (n : ℕ) × (run_with_state
        (memory_store hash)
        std
        failing
        empty
        5
      ≡ (ok outcome, s', n))
    × Runs failing.key
        (compensation_reason (memory_store hash) std failing.key)
        failing.steps
        5
        outcome
        n
unfolding program
run_with_state-Runs_example =
    run_with_state-Runs (memory_store hash) std failing (memory_store-Locks hash failing.key)
      (memory_store-Records hash failing.key) empty 5 refl

run_with_state-events_example :
    let s' = (run_with_state (memory_store hash) std failing empty 5).1 in
    (events : List SagaEvent) × (current : DeploymentState) × ((memory_store hash).events
        failing.key s'
      ≡ ok (log_of hash failing.key empty ++ events))
    × Chain SagaState.idle events SagaState.rolled_back
    × ((memory_store hash).current_state failing.key s' ≡ ok (some current))
    × (current.state ≡ SagaState.rolled_back)
unfolding program
run_with_state-events_example =
    run_with_state-events (memory_store hash) std failing (memory_store-Locks hash failing.key)
      (memory_store-Records hash failing.key) empty 5 refl
      (SagaOutcome.rolled_back "verify" "step 'verify' failed: no")
      (run_with_state (memory_store hash) std failing empty 5).1
      (run_with_state (memory_store hash) std failing empty 5).2 refl

count_up-IsCompensable : (name : String) → IsCompensable (context failing.key) (count_up name)
count_up-IsCompensable name = record {
  takes_back = λ n n' p. ground arith;
  fails_clean = λ n n' x p. cc;
}

refusing-IsCompensable : (name : String) → IsCompensable (context failing.key) (refusing name)
refusing-IsCompensable name = record {
  takes_back = λ n n' p. cc;
  fails_clean = λ n n' x p. ground arith;
}

run_with_state-AllOrNothing_example :
    (outcome : SagaOutcome) × (s' : Inner) × (n : ℕ) × (run_with_state
        (memory_store hash)
        std
        failing
        empty
        5
      ≡ (ok outcome, s', n))
    × AllOrNothing failing.key
        (compensation_reason (memory_store hash) std failing.key)
        failing.steps
        5
        outcome
        n
unfolding program
run_with_state-AllOrNothing_example =
    run_with_state-AllOrNothing (memory_store hash) std failing
      (memory_store-Locks hash failing.key) (memory_store-Records hash failing.key)
      (
        count_up-IsCompensable "fetch",
        (count_up-IsCompensable "migrate", (refusing-IsCompensable "verify", tt)),
      )
      empty 5 refl

abbrev taken : Inner
taken = (acquire_lock hash failing.key empty).1

run_with_state-releases_example :
    IsReleased
      (memory_store hash)
      std
      failing
      (memory_store-Locks hash failing.key)
      (run_with_state (memory_store hash) std failing empty 5).1
    × IsStoreFailure (run_with_state (memory_store hash) std failing empty 5).0
unfolding program
run_with_state-releases_example =
    run_with_state-releases (memory_store hash) std failing (memory_store-Locks hash failing.key)
      empty 5 refl

abbrev staging : FraiseKey
staging = record { fraise = "checkout"; environment = "staging" }

slugs_differ : slug hash staging ≢ slug hash failing.key
unfolding program
slugs_differ p =
    false≢true ((eq_iff "checkout__staging-00000000deadbeef" "checkout__prod-00000000deadbeef").1 p)

run_with_state-isolated_example :
    shown hash staging (run_with_state (memory_store hash) std failing empty 5).1
    ≡ shown hash staging empty
run_with_state-isolated_example =
    run_with_state-isolated hash std failing staging empty 5 slugs_differ

memory_store-Locks_example :
    Locks (memory_store {Json = Unit {0}} hash) failing.key (is_locked hash failing.key)
memory_store-Locks_example = memory_store-Locks hash failing.key

memory_store-Records_example :
    Records
      (memory_store {Json = Unit {0}} hash)
      failing.key
      (log_of hash failing.key)
      (latest_of hash failing.key)
memory_store-Records_example = memory_store-Records hash failing.key

urls-Scans_example :
    Scans url_step "postgres://app:pw@db/x is down" (urls "postgres://app:pw@db/x is down")
urls-Scans_example = urls-Scans "postgres://app:pw@db/x is down"
