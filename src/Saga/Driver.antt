-- ===== src/Saga/Driver.antt =====
-- The saga driver: crates/fraisier-saga/src/saga.rs. A run changes two things: the store's state `S`,
-- and what the steps act on, `E`, which is the caller's run state `R` together with the outside
-- world. Spans are not part of the model.
use Prim.Native.Char.{Char}
use fraisier_core.Common.{
  ℕ, String, Bool, none, List, [], ◌∷◌, ◌++◌, reverse, Result, ok, err, Done, map_err, format,
}
use fraisier_core.Saga.Types.{
  SagaState, state_transition, FraiseKey, StateStoreError, SagaError, show_error, SagaOutcome,
  StepContext,
}
use fraisier_core.Saga.Redact.{credentials}
use fraisier_core.Saga.Store.{StateStore}

-- `trait Step<R>`
pub record Step (E : Type 0) : Type 0 where
  pub name : String
  pub forward : StepContext → E → Result SagaError Done × E
  pub compensate : StepContext → E → Result SagaError Done × E

-- `struct Saga<S, R>`, less its store.
pub record Saga (E : Type 0) : Type 0 where
  pub key : FraiseKey
  pub steps : List (Step E)

module _ {E : Type 0} where
  -- `Saga::new`
  unfoldable pub new : String → String → Saga E
  new fraise environment = record {
    key = record { fraise = fraise; environment = environment };
    steps = [];
  }

  unfoldable pub with_step : Saga E → Step E → Saga E
  with_step saga step = record saga { steps = saga.steps ++ step ∷ [] }

  unfoldable pub with_steps : Saga E → List (Step E) → Saga E
  with_steps saga steps = record saga { steps = saga.steps ++ steps }

-- What the driver takes from the standard library: the clock, read when the store is in a given
-- state, and two Unicode tests.
pub record Std (S : Type 0) : Type 0 where
  pub now : S → ℕ
  pub is_alphanumeric : Char → Bool
  pub is_whitespace : Char → Bool

-- A fallible computation that changes the store and the environment.
abbrev pub Run : Type 0 → Type 0 → Type 0 → Type 0
Run S E A = S → E → Result SagaError A × S × E

module _ {S E A : Type 0} where
  abbrev pub pure : A → Run S E A
  pure a s e = (ok a, s, e)

  -- A step's call, whose failure is a value.
  abbrev pub attempt : (E → A × E) → Run S E A
  attempt act s e = let (a, e') = act e in (ok a, s, e')

  -- A call of the store, whose failure ends the computation: `self.store.call(..).await?`.
  abbrev pub persist : (S → Result StateStoreError A × S) → Run S E A
  persist act s e = let (r, s') = act s in (map_err SagaError.store r, s', e)

  abbrev pub gets : (S → A) → Run S E A
  gets f s e = (ok (f s), s, e)

module _ {S E A B : Type 0} where
  abbrev pub and_then : Result SagaError A → (A → Run S E B) → Run S E B
  and_then (ok a) f s e = f a s e
  and_then (err x) f s e = (err x, s, e)

  infixl 5 ◌>>=◌ ◌>>◌
  abbrev pub ◌>>=◌ : Run S E A → (A → Run S E B) → Run S E B
  ◌>>=◌ m f s e = let (r, s', e') = m s e in and_then r f s' e'

  abbrev pub ◌>>◌ : Run S E A → Run S E B → Run S E B
  m >> k = m >>= λ _. k

-- The result of a run whose lock was released with `released`.
unfoldable pub after_release :
    Result StateStoreError Done → Result SagaError SagaOutcome → Result SagaError SagaOutcome
after_release (ok _) outcome = outcome
after_release (err release_err) (ok _) = err (SagaError.store release_err)
after_release (err release_err) (err e) = err e

-- `StepContext::new`
abbrev pub context : FraiseKey → StepContext
context key = record { key = key }

module _ {S Json E : Type 0} (store : StateStore S Json) (std : Std S) (key : FraiseKey) where
  unfoldable pub transition : SagaState → SagaState → Run S E Done
  transition from to = do
    persist (store.record_event key (state_transition from to))
    now ← gets std.now
    persist (store.record_state key (record { state = to; revision = none; recorded_at = now }))

  abbrev pub compensation_reason : Step E → SagaError → String
  compensation_reason step comp_err =
      credentials std.is_alphanumeric std.is_whitespace
        (format ("compensation for '" ∷ step.name ∷ "' failed: " ∷ show_error comp_err ∷ []))

  -- What follows one compensation: the next round of the loop, or the escalation.
  unfoldable pub after_compensate :
      Step E → Run S E SagaOutcome → Result SagaError Done → Run S E SagaOutcome
  after_compensate step next (err comp_err) = do
    let reason = compensation_reason step comp_err
    transition (SagaState.compensating step.name) (SagaState.partial_rollback reason)
    pure (SagaOutcome.partial_rollback reason)
  after_compensate step next (ok _) = next

  -- The loop of `rollback`, over the completed steps that are left, the last one first.
  unfoldable pub rollback_from :
      SagaState → List (Step E) → String → SagaError → Run S E SagaOutcome
  rollback_from from [] failed_step error = do
    transition from SagaState.rolled_back
    pure (SagaOutcome.rolled_back failed_step (show_error error))
  rollback_from from (step ∷ rest) failed_step error = do
    let to = SagaState.compensating step.name
    transition from to
    result ← attempt (step.compensate (context key))
    after_compensate step (rollback_from to rest failed_step error) result

  unfoldable pub rollback : List (Step E) → String → SagaError → Run S E SagaOutcome
  rollback completed failed_step error =
      rollback_from (SagaState.running failed_step) (reverse completed) failed_step error

  -- What follows one forward action: the next round of the loop, or the rollback.
  unfoldable pub after_forward :
      List (Step E) → Step E → Run S E SagaOutcome → Result SagaError Done → Run S E SagaOutcome
  after_forward completed step next (err error) = rollback completed step.name error
  after_forward completed step next (ok _) = next

  -- The loop of `execute`, over the steps that are left.
  unfoldable pub execute_from : SagaState → List (Step E) → List (Step E) → Run S E SagaOutcome
  execute_from from completed [] = do
    transition from SagaState.committed
    pure SagaOutcome.committed
  execute_from from completed (step ∷ rest) = do
    let to = SagaState.running step.name
    transition from to
    result ← attempt (step.forward (context key))
    after_forward completed step (execute_from to (completed ++ step ∷ []) rest) result

  unfoldable pub execute : List (Step E) → Run S E SagaOutcome
  execute steps = execute_from SagaState.idle [] steps

  unfoldable pub run_inner : List (Step E) → Run S E SagaOutcome
  run_inner steps = do
    guard ← persist (store.acquire_lock key)
    λ s e.
        let (outcome, s', e') = execute steps s e in
        let (released, s'') = store.release_lock guard s' in
        (after_release released outcome, s'', e')

-- `Saga::run_with_state`
module _ {S Json E : Type 0} (store : StateStore S Json) (std : Std S) where
  unfoldable pub run_with_state : Saga E → Run S E SagaOutcome
  run_with_state saga = run_inner store std saga.key saga.steps
