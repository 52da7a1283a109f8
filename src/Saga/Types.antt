-- ===== src/Saga/Types.antt =====
-- The states, events, outcomes and errors of a saga run: events.rs, and the types of saga.rs and
-- state_store.rs.
use fraisier_core.Common.{ℕ, String, Option, format}
use fraisier_core.Common.{[], ◌∷◌}

-- `enum SagaState`
pub data SagaState : Type 0 where
  idle : SagaState
  running : String → SagaState
  committed : SagaState
  compensating : String → SagaState
  rolled_back : SagaState
  failed : String → SagaState
  partial_rollback : String → SagaState

-- `impl Display for SagaState`
unfoldable pub show_state : SagaState → String
show_state SagaState.idle = "idle"
show_state (SagaState.running step) = format ("running:" ∷ step ∷ [])
show_state SagaState.committed = "committed"
show_state (SagaState.compensating step) = format ("compensating:" ∷ step ∷ [])
show_state SagaState.rolled_back = "rolled_back"
show_state (SagaState.failed _) = "failed"
show_state (SagaState.partial_rollback _) = "partial_rollback"

-- `enum SagaEvent`, which has one kind.
pub data SagaEvent : Type 0 where
  state_transition : (from to : SagaState) → SagaEvent

-- `struct FraiseKey`
pub record FraiseKey : Type 0 where
  pub fraise : String
  pub environment : String

-- `impl Display for FraiseKey`
unfoldable pub show_key : FraiseKey → String
show_key key = format (key.fraise ∷ "/" ∷ key.environment ∷ [])

-- `struct DeploymentState`; the time is a number.
pub record DeploymentState : Type 0 where
  pub state : SagaState
  pub revision : Option String
  pub recorded_at : ℕ

-- `enum StateStoreError`; an error of another crate is its displayed text.
pub data StateStoreError : Type 0 where
  locked : (key : String) → StateStoreError
  io : String → StateStoreError
  serde : String → StateStoreError
  backend : String → StateStoreError
  database : String → StateStoreError

unfoldable pub show_store_error : StateStoreError → String
show_store_error (StateStoreError.locked key) =
    format ("the deploy " ∷ key ∷ " is already locked by another writer" ∷ [])
show_store_error (StateStoreError.io e) = format ("state store I/O error: " ∷ e ∷ [])
show_store_error (StateStoreError.serde e) =
    format ("state store (de)serialization error: " ∷ e ∷ [])
show_store_error (StateStoreError.backend e) = format ("state store backend error: " ∷ e ∷ [])
show_store_error (StateStoreError.database e) = format ("state store database error: " ∷ e ∷ [])

-- `struct LockGuard`; a live `flock` of the filesystem backend is not part of the model.
pub record LockGuard : Type 0 where
  pub key : FraiseKey

-- `enum SagaError`
pub data SagaError : Type 0 where
  step_failed : (step message : String) → SagaError
  store : StateStoreError → SagaError

-- `SagaError::to_string`
unfoldable pub show_error : SagaError → String
unfolding show_store_error
show_error (SagaError.step_failed step message) =
    format ("step '" ∷ step ∷ "' failed: " ∷ message ∷ [])
show_error (SagaError.store e) = show_store_error e

-- `enum SagaOutcome`
pub data SagaOutcome : Type 0 where
  committed : SagaOutcome
  rolled_back : (failed_step reason : String) → SagaOutcome
  partial_rollback : (reason : String) → SagaOutcome

-- `struct StepContext`
pub record StepContext : Type 0 where
  pub key : FraiseKey
