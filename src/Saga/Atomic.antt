-- ===== src/Saga/Atomic.antt =====
-- All or nothing, for steps whose compensation undoes their forward action.
use mathlib.Core.List.{reverse-cons}
use fraisier_core.Common.{
  ◌≡◌, refl, sym, ◌∙◌, ap, String, Bool, false, Option, List, [], ◌∷◌, ◌++◌, reverse, Result, ok,
  err, Done, ◌⊎◌, inl, inr, All,
}
use fraisier_core.Saga.Types.{
  SagaEvent, SagaError, FraiseKey, DeploymentState, SagaOutcome, StepContext, show_error,
}
use fraisier_core.Saga.Store.{StateStore, Locks, Records}
use fraisier_core.Saga.Driver.{Step, Saga, Std, context, compensation_reason, run_with_state}
use fraisier_core.Saga.Spec.{Forward, Undo, Rolls, Runs}
use fraisier_core.Saga.Refinement.{run_with_state-Runs}

module _ {E : Type 0} where
  -- The compensation takes back what the forward action did, and a forward action that fails has
  -- done nothing.
  pub record IsCompensable (ctx : StepContext) (step : Step E) : Type 0 where
    pub takes_back :
        (e e' : E) → step.forward ctx e ≡ (ok tt, e') → step.compensate ctx e' ≡ (ok tt, e)
    pub fails_clean : (e e' : E) (x : SagaError) → step.forward ctx e ≡ (err x, e') → e' ≡ e

module _ {E : Type 0} (key : FraiseKey) where
  All-append-left :
      (xs ys : List (Step E))
      → All (IsCompensable (context key)) (xs ++ ys)
      → All (IsCompensable (context key)) xs × All (IsCompensable (context key)) ys
  All-append-left [] ys h = (tt, h)
  All-append-left (x ∷ xs) ys h = let (hx, hy) = All-append-left xs ys h.1 in ((h.0, hx), hy)

  Undo-snoc :
      (step : Step E) {todo : List (Step E)} {e e' e'' : E}
      → Undo key todo e e'
      → step.compensate (context key) e' ≡ (ok tt, e'')
      → Undo key (todo ++ step ∷ []) e e''
  Undo-snoc step Undo.stop q = Undo.undid q Undo.stop
  Undo-snoc step (Undo.undid p u) q = Undo.undid p (Undo-snoc step u q)

  Undo-reverse :
      {completed : List (Step E)} {e e' : E}
      → All (IsCompensable (context key)) completed
      → Forward key completed e e'
      → Undo key (reverse completed) e' e
  Undo-reverse h Forward.stop = Undo.stop
  Undo-reverse {completed = step ∷ rest} h (Forward.did {e = e} {e' = e'} p f) =
      rw reverse-cons (Undo-snoc step (Undo-reverse h.1 f) (h.0.takes_back e e' p))

  -- Compensations that all succeed leave no room for one that fails.
  Undo-not-stuck :
      (undone : List (Step E)) (step : Step E) (left : List (Step E)) {e e₁ e₂ e' : E}
      {cause : SagaError}
      → Undo key (undone ++ step ∷ left) e e₁
      → Undo key undone e e₂
      → step.compensate (context key) e₂ ≡ (err cause, e')
      → ⊥
  Undo-not-stuck [] step left (Undo.undid p u) Undo.stop q = cc
  Undo-not-stuck (x ∷ undone) step left (Undo.undid p u) (Undo.undid p' u') q =
      let same = ap (λ (r : Result SagaError Done × E). r.1) (sym p' ∙ p) in
      Undo-not-stuck undone step left u (rw same at u') q

  Undo-unique :
      {todo : List (Step E)} {e e₁ e₂ : E} → Undo key todo e e₁ → Undo key todo e e₂ → e₂ ≡ e₁
  Undo-unique Undo.stop Undo.stop = refl
  Undo-unique (Undo.undid p u) (Undo.undid p' u') =
      let same = ap (λ (r : Result SagaError Done × E). r.1) (sym p' ∙ p) in
      Undo-unique u (rw same at u')

  module _ (reason : Step E → SagaError → String) where
    Rolls-clean :
        {failed_step : String} {error : SagaError} {todo : List (Step E)} {e e₁ e' : E}
        {outcome : SagaOutcome}
        → Undo key todo e e₁
        → Rolls key reason failed_step error todo e outcome e'
        → (outcome ≡ SagaOutcome.rolled_back failed_step (show_error error)) × (e' ≡ e₁)
    Rolls-clean u (Rolls.clean u') = (refl, Undo-unique u u')
    Rolls-clean u (Rolls.stuck undone step left cause split u' q) =
        absurd (Undo-not-stuck undone step left (rw split at u) u' q)

    -- What `Runs` says of compensable steps.
    abbrev pub AllOrNothing : List (Step E) → E → SagaOutcome → E → Type 0
    AllOrNothing steps e outcome e' =
        ((outcome ≡ SagaOutcome.committed) × Forward key steps e e')
        ⊎ ((failed_step : String) × (why : String) × (outcome
              ≡ SagaOutcome.rolled_back failed_step why)
            × (e' ≡ e))

    Runs-AllOrNothing :
        {steps : List (Step E)} {e e' : E} {outcome : SagaOutcome}
        → All (IsCompensable (context key)) steps
        → Runs key reason steps e outcome e'
        → AllOrNothing steps e outcome e'
    Runs-AllOrNothing h (Runs.commits f) = inl (refl, f)
    Runs-AllOrNothing h
          (Runs.rolls {e' = e₁} {e'' = e₂} completed step rest error split f q rolls) =
        let (before, here) = All-append-left completed (step ∷ rest) (rw split at h) in
        let unchanged = here.0.fails_clean e₁ e₂ error q in
        let (o, p) = Rolls-clean (rw (← unchanged) at (Undo-reverse before f)) rolls in
        inr (step.name, show_error error, o, p)

module _ {S Json E : Type 0} (store : StateStore S Json) (std : Std S) (saga : Saga E)
    {holds : S → Bool} {log : S → List SagaEvent} {latest : S → Option DeploymentState}
    (locks : Locks store saga.key holds) (records : Records store saga.key log latest)
    (compensable : All (IsCompensable (context saga.key)) saga.steps) where
  -- Over a store that keeps its contract and whose lock is free, and for steps whose compensation
  -- takes their forward action back and whose failed forward action changes nothing, a run either
  -- commits with every step gone forward or rolls back to exactly the environment that it started
  -- from; it never ends in a partial rollback.
  pub run_with_state-AllOrNothing :
      (s : S) (e : E)
      → holds s ≡ false
      → (outcome : SagaOutcome) × (s' : S) × (e' : E) × (run_with_state store std saga s e
          ≡ (ok outcome, s', e'))
        × AllOrNothing saga.key (compensation_reason store std saga.key) saga.steps e outcome e'
  run_with_state-AllOrNothing s e free =
      let (outcome, s', e', p, runs) = run_with_state-Runs store std saga locks records s e free in
      (outcome, s', e', p, Runs-AllOrNothing saga.key _ compensable runs)
