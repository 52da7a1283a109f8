-- ===== src/Saga/Store.antt =====
-- The interface between the saga driver and its persistence: `trait StateStore` of
-- crates/fraisier-saga/src/state_store.rs. A method takes the store's state and returns the new one
-- beside its result. A snapshot is opaque to the engine, so its type `Json` is a parameter.
use fraisier_core.Common.{
  ◌≡◌, Bool, true, false, Option, some, List, [], ◌∷◌, ◌++◌, Result, ok, err, Done,
}
use fraisier_core.Saga.Types.{
  FraiseKey, show_key, DeploymentState, SagaEvent, LockGuard, StateStoreError,
}

pub record StateStore (S Json : Type 0) : Type 0 where
  pub acquire_lock : FraiseKey → S → Result StateStoreError LockGuard × S
  pub release_lock : LockGuard → S → Result StateStoreError Done × S
  pub record_state : FraiseKey → DeploymentState → S → Result StateStoreError Done × S
  pub current_state : FraiseKey → S → Result StateStoreError (Option DeploymentState)
  pub record_event : FraiseKey → SagaEvent → S → Result StateStoreError Done × S
  pub events : FraiseKey → S → Result StateStoreError (List SagaEvent)
  pub record_snapshot : FraiseKey → Json → S → Result StateStoreError Done × S
  pub current_snapshot : FraiseKey → S → Result StateStoreError (Option Json)
  pub keys : S → Result StateStoreError (List FraiseKey)

-- The locking half of the trait's contract at one key. `holds` says that the lock is taken; a
-- release and any other write may still fail.
pub record Locks {S Json : Type 0} (store : StateStore S Json) (key : FraiseKey) (holds : S → Bool)
    : Type 0 where
  pub acquire_free :
      (s : S) → holds s ≡ false → (store.acquire_lock key s).0 ≡ ok (record { key = key })
  pub acquire_takes : (s : S) → holds s ≡ false → holds (store.acquire_lock key s).1 ≡ true
  pub acquire_held :
      (s : S)
      → holds s ≡ true
      → store.acquire_lock key s ≡ (err (StateStoreError.locked (show_key key)), s)
  pub holds-release_lock :
      (s s' : S) → store.release_lock (record { key = key }) s ≡ (ok tt, s') → holds s' ≡ false
  pub holds-record_event : (s : S) (e : SagaEvent) → holds (store.record_event key e s).1 ≡ holds s
  pub holds-record_state :
      (s : S) (d : DeploymentState) → holds (store.record_state key d s).1 ≡ holds s

-- The recording half, for a store whose writes do not fail: the event log grows at its end, and the
-- state recorded last is the current one.
pub record Records {S Json : Type 0} (store : StateStore S Json) (key : FraiseKey)
    (log : S → List SagaEvent) (latest : S → Option DeploymentState) : Type 0 where
  pub release_lock_ok : (s : S) → (store.release_lock (record { key = key }) s).0 ≡ ok tt
  pub record_event_ok : (s : S) (e : SagaEvent) → (store.record_event key e s).0 ≡ ok tt
  pub record_state_ok : (s : S) (d : DeploymentState) → (store.record_state key d s).0 ≡ ok tt
  pub log-acquire_lock : (s : S) → log (store.acquire_lock key s).1 ≡ log s
  pub log-release_lock : (s : S) → log (store.release_lock (record { key = key }) s).1 ≡ log s
  pub log-record_event :
      (s : S) (e : SagaEvent) → log (store.record_event key e s).1 ≡ log s ++ e ∷ []
  pub log-record_state : (s : S) (d : DeploymentState) → log (store.record_state key d s).1 ≡ log s
  pub latest-release_lock :
      (s : S) → latest (store.release_lock (record { key = key }) s).1 ≡ latest s
  pub latest-record_state :
      (s : S) (d : DeploymentState) → latest (store.record_state key d s).1 ≡ some d
  pub events-eq-log : (s : S) → store.events key s ≡ ok (log s)
  pub current_state-eq-latest : (s : S) → store.current_state key s ≡ ok (latest s)

-- The snapshot of a key: what was recorded last is read back, and nothing else of the key's deploy
-- changes it.
pub record Snapshots {S Json : Type 0} (store : StateStore S Json) (key : FraiseKey)
    (ledger : S → Option Json) : Type 0 where
  pub current_snapshot-eq-ledger : (s : S) → store.current_snapshot key s ≡ ok (ledger s)
  pub record_snapshot_ok : (s : S) (j : Json) → (store.record_snapshot key j s).0 ≡ ok tt
  pub ledger-record_snapshot :
      (s : S) (j : Json) → ledger (store.record_snapshot key j s).1 ≡ some j
  pub ledger-acquire_lock : (s : S) → ledger (store.acquire_lock key s).1 ≡ ledger s
  pub ledger-release_lock :
      (s : S) (guard : LockGuard) → ledger (store.release_lock guard s).1 ≡ ledger s
  pub ledger-record_event :
      (s : S) (e : SagaEvent) → ledger (store.record_event key e s).1 ≡ ledger s
  pub ledger-record_state :
      (s : S) (d : DeploymentState) → ledger (store.record_state key d s).1 ≡ ledger s
