-- ===== src/Saga/Spec.antt =====
-- What a saga run does, said without the driver: which steps run, in which order, and how it ends.
use fraisier_core.Common.{◌≡◌, String, List, [], ◌∷◌, ◌++◌, reverse, ok, err}
use fraisier_core.Saga.Types.{SagaError, show_error, FraiseKey, SagaOutcome}
use fraisier_core.Saga.Driver.{Step, context}

module _ {E : Type 0} (key : FraiseKey) where
  -- The steps' forward actions succeed, in order.
  pub data Forward : List (Step E) → E → E → Type 0 where
    stop : {e : E} → Forward [] e e
    did :
        {step : Step E} {rest : List (Step E)} {e e' e'' : E}
        → step.forward (context key) e ≡ (ok tt, e')
        → Forward rest e' e''
        → Forward (step ∷ rest) e e''

  -- The steps' compensations succeed, in order.
  pub data Undo : List (Step E) → E → E → Type 0 where
    stop : {e : E} → Undo [] e e
    undid :
        {step : Step E} {rest : List (Step E)} {e e' e'' : E}
        → step.compensate (context key) e ≡ (ok tt, e')
        → Undo rest e' e''
        → Undo (step ∷ rest) e e''

  module _ (reason : Step E → SagaError → String) where
    -- The rollback of the completed steps, given in the order of their compensation, after a failure.
    pub data Rolls (failed_step : String) (error : SagaError)
        : List (Step E) → E → SagaOutcome → E → Type 0 where
      clean :
          {todo : List (Step E)} {e e' : E}
          → Undo todo e e'
          → Rolls failed_step error todo e
              (SagaOutcome.rolled_back failed_step (show_error error))
              e'
      stuck :
          {todo : List (Step E)} {e e' e'' : E} (undone : List (Step E)) (step : Step E)
          (left : List (Step E)) (cause : SagaError)
          → todo ≡ undone ++ step ∷ left
          → Undo undone e e'
          → step.compensate (context key) e' ≡ (err cause, e'')
          → Rolls failed_step error todo e (SagaOutcome.partial_rollback (reason step cause)) e''

    -- A run commits if every step goes forward. If one fails, those before it, and only those, are
    -- compensated in reverse order until one of the compensations fails.
    pub data Runs : List (Step E) → E → SagaOutcome → E → Type 0 where
      commits :
          {steps : List (Step E)} {e e' : E}
          → Forward steps e e'
          → Runs steps e SagaOutcome.committed e'
      rolls :
          {steps : List (Step E)} {e e' e'' e''' : E} {outcome : SagaOutcome}
          (completed : List (Step E)) (step : Step E) (rest : List (Step E)) (error : SagaError)
          → steps ≡ completed ++ step ∷ rest
          → Forward completed e e'
          → step.forward (context key) e' ≡ (err error, e'')
          → Rolls step.name error (reverse completed) e'' outcome e'''
          → Runs steps e outcome e'''
