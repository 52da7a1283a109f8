-- ===== src/Saga/Memory/Isolation.antt =====
-- Runs of different keys in one memory store do not see one another.
use fraisier_core.Common.{
  ℕ, ◌≡◌, ◌≢◌, ◌∙◌, String, Bool, false, Option, List, [], arith, str_eq, eq_iff, Bool-cases, inl,
  inr,
}
use fraisier_core.Common.Map.{contains, contains-remove}
use fraisier_core.Saga.Types.{SagaState, FraiseKey, DeploymentState, SagaEvent}
use fraisier_core.Saga.Key.{slug}
use fraisier_core.Saga.Driver.{Saga, Std, execute, run_inner, run_with_state}
use fraisier_core.Saga.Keeps.{Keeps-execute_from}
use fraisier_core.Saga.Locking.{run_with_state-locked}
use fraisier_core.Saga.Memory.{
  MemoryInner, acquire_lock, release_lock, record_state, record_event, memory_store,
}
use fraisier_core.Saga.Memory.Contract.{
  is_locked, log_of, latest_of, ledger_of, lookup-push, memory_store-Locks,
}

not-str_eq : (a b : String) → b ≢ a → str_eq a b ≡ false
not-str_eq a b h = ground (arith, eq_iff a b)

module _ {Json : Type 0} (stable_hash : FraiseKey → ℕ) where
  -- All that the store shows of one key: its events, its current state, its snapshot, and whether it is
  -- locked.
  abbrev pub shown :
      FraiseKey → MemoryInner Json → List SagaEvent × Option DeploymentState × Option Json × Bool
  shown key s = (
    log_of stable_hash key s,
    latest_of stable_hash key s,
    ledger_of stable_hash key s,
    is_locked stable_hash key s,
  )

  module _ (key j : FraiseKey) (other : slug stable_hash j ≢ slug stable_hash key) where
    shown-record_event :
        (s : MemoryInner Json) (e : SagaEvent)
        → shown j (record_event stable_hash key e s).1 ≡ shown j s
    unfolding record_event log_of latest_of ledger_of is_locked
    shown-record_event s e = simp (lookup-push, not-str_eq _ _ other)

    shown-record_state :
        (s : MemoryInner Json) (d : DeploymentState)
        → shown j (record_state stable_hash key d s).1 ≡ shown j s
    unfolding record_state log_of latest_of ledger_of is_locked
    shown-record_state s d = simp (lookup-push, not-str_eq _ _ other)

    shown-acquire_lock :
        (s : MemoryInner Json) → shown j (acquire_lock stable_hash key s).1 ≡ shown j s
    unfolding acquire_lock log_of latest_of ledger_of is_locked contains
    shown-acquire_lock s = elim (Bool-cases (contains (slug stable_hash key) s.locks)) [
      | inl held ↦ rw held
      | inr free ↦ rw (free, not-str_eq _ _ other)
    ]

    shown-release_lock :
        (s : MemoryInner Json)
        → shown j (release_lock stable_hash (record { key = key }) s).1 ≡ shown j s
    unfolding release_lock log_of latest_of ledger_of is_locked
    shown-release_lock s = simp (contains-remove, not-str_eq _ _ other)

  module _ {E : Type 0} (std : Std (MemoryInner Json)) (saga : Saga E) where
    -- A run over the memory store changes nothing that the store shows of a key with another slug:
    -- not its events, its current state, its snapshot or its lock, however the run ends.
    pub run_with_state-isolated :
        (j : FraiseKey) (s : MemoryInner Json) (e : E)
        → slug stable_hash j ≢ slug stable_hash saga.key
        → shown j (run_with_state (memory_store stable_hash) std saga s e).1 ≡ shown j s
    run_with_state-isolated j s e other = elim (Bool-cases (is_locked stable_hash saga.key s)) [
      | inl held ↦ rw (
          run_with_state-locked (memory_store stable_hash) std saga
            (memory_store-Locks stable_hash saga.key) s e held)
      | inr free ↦
          let key = saga.key in
          let kept =
            Keeps-execute_from (memory_store stable_hash) std key (shown-record_event key j other)
              (shown-record_state key j other) SagaState.idle [] saga.steps in
          unfold run_with_state run_inner execute in
          rw ((memory_store-Locks stable_hash key).acquire_free s free) (
            shown-release_lock key j other _
            ∙ kept.same (acquire_lock stable_hash key s).1 e
            ∙ shown-acquire_lock key j other s)
    ]
