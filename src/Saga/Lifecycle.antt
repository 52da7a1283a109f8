-- ===== src/Saga/Lifecycle.antt =====
-- The lifecycle that the states of events.rs describe, as a step relation.
use fraisier_core.Common.{◌≡◌, String, List, [], ◌∷◌, ◌++◌}
use fraisier_core.Saga.Types.{SagaState, SagaEvent, state_transition, SagaOutcome}

infix 40 ◌⟶◌
pub data ◌⟶◌ : SagaState → SagaState → Type 0 where
  start : {a : String} → SagaState.idle ⟶ SagaState.running a
  advance : {a b : String} → SagaState.running a ⟶ SagaState.running b
  commit_empty : SagaState.idle ⟶ SagaState.committed
  commit : {a : String} → SagaState.running a ⟶ SagaState.committed
  turn : {a b : String} → SagaState.running a ⟶ SagaState.compensating b
  retreat : {a b : String} → SagaState.compensating a ⟶ SagaState.compensating b
  roll_first : {a : String} → SagaState.running a ⟶ SagaState.rolled_back
  roll : {a : String} → SagaState.compensating a ⟶ SagaState.rolled_back
  escalate : {a r : String} → SagaState.compensating a ⟶ SagaState.partial_rollback r

-- The events lead from the first state to the last, each from where the one before it arrived, and
-- each along the lifecycle.
abbrev pub Chain : SagaState → List SagaEvent → SagaState → Type 0
Chain a [] c = a ≡ c
Chain a (state_transition from to ∷ events) c = (a ≡ from) × (from ⟶ to) × Chain to events c

pub Chain-append :
    (a b c : SagaState) (xs ys : List SagaEvent)
    → Chain a xs b
    → Chain b ys c
    → Chain a (xs ++ ys) c
Chain-append a b c [] ys p q = rw p q
Chain-append a b c (state_transition from to ∷ xs) ys p q =
    (p.0, p.1, Chain-append to b c xs ys p.2 q)

-- The state in which a run with this outcome ends.
abbrev pub terminal : SagaOutcome → SagaState
terminal SagaOutcome.committed = SagaState.committed
terminal (SagaOutcome.rolled_back _ _) = SagaState.rolled_back
terminal (SagaOutcome.partial_rollback reason) = SagaState.partial_rollback reason
