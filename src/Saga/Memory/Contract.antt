-- ===== src/Saga/Memory/Contract.antt =====
-- The memory store keeps the contract that the driver's theorems ask for.
use mathlib.Core.Option
use text.Mathlib.TextPositions.{eq_refl}
use fraisier_core.Common.{
  ℕ, ◌≡◌, refl, ap, subst, ok, false, String, Bool, Option, some, List, [], ◌∷◌, ◌++◌, arith,
  get_last?, get_last?-append_one, str_eq, if◌then◌else◌,
}
use fraisier_core.Common.Map.{Map, lookup, lookup-insert, contains, contains-remove}
use fraisier_core.Saga.Types.{FraiseKey, DeploymentState, SagaEvent}
use fraisier_core.Saga.Key.{slug}
use fraisier_core.Saga.Store.{Locks, Records, Snapshots}
use fraisier_core.Saga.Memory.{
  MemoryInner, push, acquire_lock, release_lock, record_state, current_state, record_event, events,
  record_snapshot, current_snapshot, memory_store,
}

module _ {Json : Type 0} (stable_hash : FraiseKey → ℕ) (key : FraiseKey) where
  -- The lock of the key is taken.
  unfoldable pub is_locked : MemoryInner Json → Bool
  is_locked inner = contains (slug stable_hash key) inner.locks

  -- The events of the key, oldest first.
  unfoldable pub log_of : MemoryInner Json → List SagaEvent
  log_of inner = Option.get_or (lookup (slug stable_hash key) inner.events) []

  -- The state of the key that was recorded last.
  unfoldable pub latest_of : MemoryInner Json → Option DeploymentState
  latest_of inner =
      Option.bind (lookup (slug stable_hash key) inner.states) (λ states. get_last? states)

pub lookup-push :
    {V : Type 0} (k j : String) (v : V) (m : Map (List V))
    → lookup j (push k v m)
      ≡ (if str_eq k j then some (Option.get_or (lookup k m) [] ++ v ∷ []) else lookup j m)
unfolding push
lookup-push k j v m = lookup-insert k j _ m

module _ {Json : Type 0} (stable_hash : FraiseKey → ℕ) (key : FraiseKey) where
  released :
      (s s' : MemoryInner Json)
      → release_lock stable_hash (record { key = key }) s ≡ (ok tt, s')
      → is_locked stable_hash key s' ≡ false
  unfolding is_locked release_lock contains
  released s s' q =
      subst (λ t. contains (slug stable_hash key) t.locks ≡ false) (ap (λ r. r.1) q)
        (simp (contains-remove, eq_refl))

  -- The memory store's lock is the driver's lock: acquiring a free key takes it, acquiring a held one
  -- fails with `Locked` and changes nothing, releasing frees it, and recording leaves it alone.
  pub memory_store-Locks :
      Locks (memory_store {Json = Json} stable_hash) key (is_locked stable_hash key)
  unfolding is_locked acquire_lock release_lock record_event record_state contains
  memory_store-Locks = record {
    acquire_free = λ s h. rw h;
    acquire_takes = λ s h. rw h (simp eq_refl);
    acquire_held = λ s h. rw h;
    holds-release_lock = λ s s' q. released s s' q;
    holds-record_event = λ s e. refl;
    holds-record_state = λ s d. refl;
  }

  -- The memory store keeps a key's log and its latest state: recording an event or a state succeeds
  -- and adds it, acquiring and releasing keep the log, releasing keeps the latest state, and `events`
  -- and `current_state` return them.
  pub memory_store-Records :
      Records
        (memory_store {Json = Json} stable_hash)
        key
        (log_of stable_hash key)
        (latest_of stable_hash key)
  unfolding log_of latest_of acquire_lock release_lock record_event record_state events
      current_state Option.bind
  memory_store-Records = record {
    release_lock_ok = λ s. refl;
    record_event_ok = λ s e. refl;
    record_state_ok = λ s d. refl;
    log-acquire_lock = λ s. ground arith;
    log-release_lock = λ s. refl;
    log-record_event = λ s e. simp (lookup-push, eq_refl);
    log-record_state = λ s d. refl;
    latest-release_lock = λ s. refl;
    latest-record_state = λ s d. simp (lookup-push, eq_refl, get_last?-append_one);
    events-eq-log = λ s. refl;
    current_state-eq-latest = λ s. refl;
  }

  -- The snapshot of the key.
  unfoldable pub ledger_of : MemoryInner Json → Option Json
  ledger_of inner = lookup (slug stable_hash key) inner.snapshots

  -- The memory store keeps a key's snapshot: what was recorded last is read back, recording succeeds,
  -- and locking, unlocking and recording an event or a state leave it alone.
  pub memory_store-Snapshots : Snapshots (memory_store {Json = Json} stable_hash) key (ledger_of)
  unfolding ledger_of acquire_lock release_lock record_event record_state record_snapshot
      current_snapshot
  memory_store-Snapshots = record {
    current_snapshot-eq-ledger = λ s. refl;
    record_snapshot_ok = λ s j. refl;
    ledger-record_snapshot = λ s j. simp (lookup-insert, eq_refl);
    ledger-acquire_lock = λ s. ground arith;
    ledger-release_lock = λ s guard. refl;
    ledger-record_event = λ s e. refl;
    ledger-record_state = λ s d. refl;
  }
