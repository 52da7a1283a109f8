-- ===== src/Saga/Memory.antt =====
-- `MemoryStateStore`: crates/fraisier-saga/src/state_store.rs. The mutex-guarded maps are the fields of
-- `MemoryInner`; a method holds each mutex for one operation. The hash behind a key's slug is a
-- parameter.
pub mod Contract
pub mod Isolation
use mathlib.Core.Option
use fraisier_core.Common.{
  ℕ, String, Bool, Option, none, some, List, [], ◌∷◌, ◌++◌, Result, ok, err, Done, if◌then◌else◌,
  get_last?,
}
use fraisier_core.Common.Map.{Map, lookup, insert, values, contains, remove}
use fraisier_core.Saga.Types.{
  FraiseKey, show_key, DeploymentState, SagaEvent, LockGuard, StateStoreError,
}
use fraisier_core.Saga.Key.{slug}
use fraisier_core.Saga.Store.{StateStore}

pub record MemoryInner (Json : Type 0) : Type 0 where
  pub locks : List String
  pub states : Map (List DeploymentState)
  pub events : Map (List SagaEvent)
  pub snapshots : Map Json
  pub keys : Map FraiseKey

-- `map.entry(key).or_default().push(value)`
unfoldable pub push : {V : Type 0} → String → V → Map (List V) → Map (List V)
push k v m = insert k (Option.get_or (lookup k m) [] ++ v ∷ []) m

-- `MemoryStateStore::new`
abbrev pub new : {Json : Type 0} → MemoryInner Json
new = record { locks = []; states = []; events = []; snapshots = []; keys = [] }

module _ {Json : Type 0} (stable_hash : FraiseKey → ℕ) where
  unfoldable pub remember_key : FraiseKey → MemoryInner Json → MemoryInner Json
  remember_key key inner = record inner { keys = insert (slug stable_hash key) key inner.keys }

  -- `HashSet::insert` says whether the slug is new.
  unfoldable pub acquire_lock :
      FraiseKey → MemoryInner Json → Result StateStoreError LockGuard × MemoryInner Json
  acquire_lock key inner =
      if contains (slug stable_hash key) inner.locks
      then (err (StateStoreError.locked (show_key key)), inner)
      else (ok (record { key = key }), record inner { locks = slug stable_hash key ∷ inner.locks })

  unfoldable pub release_lock :
      LockGuard → MemoryInner Json → Result StateStoreError Done × MemoryInner Json
  release_lock guard inner =
      (ok tt, record inner { locks = remove (slug stable_hash guard.key) inner.locks })

  unfoldable pub record_state :
      FraiseKey
      → DeploymentState
      → MemoryInner Json
      → Result StateStoreError Done × MemoryInner Json
  unfolding remember_key push
  record_state key state inner =
      let inner' = remember_key key inner in
      (ok tt, record inner' { states = push (slug stable_hash key) state inner'.states })

  unfoldable pub current_state :
      FraiseKey → MemoryInner Json → Result StateStoreError (Option DeploymentState)
  current_state key inner =
      ok (Option.bind (lookup (slug stable_hash key) inner.states) (λ states. get_last? states))

  unfoldable pub record_event :
      FraiseKey → SagaEvent → MemoryInner Json → Result StateStoreError Done × MemoryInner Json
  unfolding push
  record_event key event inner =
      (ok tt, record inner { events = push (slug stable_hash key) event inner.events })

  unfoldable pub events : FraiseKey → MemoryInner Json → Result StateStoreError (List SagaEvent)
  events key inner = ok (Option.get_or (lookup (slug stable_hash key) inner.events) [])

  unfoldable pub record_snapshot :
      FraiseKey → Json → MemoryInner Json → Result StateStoreError Done × MemoryInner Json
  unfolding remember_key
  record_snapshot key snapshot inner =
      let inner' = remember_key key inner in
      (ok tt, record inner' { snapshots = insert (slug stable_hash key) snapshot inner'.snapshots })

  unfoldable pub current_snapshot :
      FraiseKey → MemoryInner Json → Result StateStoreError (Option Json)
  current_snapshot key inner = ok (lookup (slug stable_hash key) inner.snapshots)

  unfoldable pub keys : MemoryInner Json → Result StateStoreError (List FraiseKey)
  keys inner = ok (values inner.keys)

  -- `impl StateStore for MemoryStateStore`
  abbrev pub memory_store : StateStore (MemoryInner Json) Json
  memory_store = record {
    acquire_lock = acquire_lock;
    release_lock = release_lock;
    record_state = record_state;
    current_state = current_state;
    record_event = record_event;
    events = events;
    record_snapshot = record_snapshot;
    current_snapshot = current_snapshot;
    keys = keys;
  }
