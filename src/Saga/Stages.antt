-- ===== src/Saga/Stages.antt =====
-- Conditions between the steps of a saga: what holds at the end of a run, from what each step keeps.
use mathlib.Core.List.{reverse-cons}
use fraisier_core.Common.{◌≡◌, String, Bool, false, Option, List, [], ◌∷◌, ◌++◌, reverse, ok, err}
use fraisier_core.Saga.Types.{
  SagaEvent, SagaError, FraiseKey, DeploymentState, SagaOutcome, StepContext,
}
use fraisier_core.Saga.Store.{StateStore, Locks, Records}
use fraisier_core.Saga.Driver.{Step, Saga, Std, context, run_with_state}
use fraisier_core.Saga.Spec.{Forward, Undo, Rolls, Runs}
use fraisier_core.Saga.Refinement.{run_with_state-Runs}

module _ {E : Type 0} where
  -- The step takes `P` to `Q`, leaves `B` when it fails, and its compensation takes `C` back to `B`:
  -- `P` and `Q` hold as long as the saga goes forward, `B` and `C` once it goes back.
  pub record IsStage (ctx : StepContext) (P B : E → Type 0) (step : Step E) (Q C : E → Type 0)
      : Type 0 where
    pub advances : (e e' : E) → P e → step.forward ctx e ≡ (ok tt, e') → Q e'
    pub fails : (e e' : E) (x : SagaError) → P e → step.forward ctx e ≡ (err x, e') → B e'
    pub returns : (e e' : E) → C e → step.compensate ctx e ≡ (ok tt, e') → B e'

  -- Two conditions between each two steps.
  pub data Stages (ctx : StepContext)
      : (E → Type 0) → (E → Type 0) → List (Step E) → (E → Type 0) → (E → Type 0) → Type 1 where
    last : {P B : E → Type 0} → Stages ctx P B [] P B
    stage :
        {P B Q C R D : E → Type 0} {step : Step E} {rest : List (Step E)}
        → IsStage ctx P B step Q C
        → Stages ctx Q C rest R D
        → Stages ctx P B (step ∷ rest) R D

  -- What the outcome tells: the last condition after a commit, the first on the way back after a
  -- rollback.
  abbrev pub Ended : (E → Type 0) → (E → Type 0) → SagaOutcome → E → Type 0
  Ended B R SagaOutcome.committed e = R e
  Ended B R (SagaOutcome.rolled_back failed_step reason) e = B e
  Ended B R (SagaOutcome.partial_rollback reason) e = Unit

module _ {E : Type 0} (key : FraiseKey) where
  Forward-Stages :
      {P B R D : E → Type 0} {steps : List (Step E)} {e e' : E}
      → Stages (context key) P B steps R D
      → Forward key steps e e'
      → P e
      → R e'
  Forward-Stages Stages.last Forward.stop p = p
  Forward-Stages (Stages.stage s rest) (Forward.did q f) p =
      Forward-Stages rest f (s.advances _ _ p q)

  Stages-split :
      (completed : List (Step E)) (step : Step E) (rest : List (Step E)) {P B R D : E → Type 0}
      → Stages (context key) P B (completed ++ step ∷ rest) R D
      → (Q : E → Type 0) × (C : E → Type 0) × (Q' : E → Type 0) × (C' : E → Type 0) × Stages
          (context key)
          P
          B
          completed
          Q
          C
        × IsStage (context key) Q C step Q' C'
  Stages-split [] step rest (Stages.stage s stages) = (_, _, _, _, Stages.last, s)
  Stages-split (x ∷ completed) step rest (Stages.stage s stages) =
      let (Q, C, Q', C', before, here) = Stages-split completed step rest stages in
      (Q, C, Q', C', Stages.stage s before, here)

  Undo-split :
      (xs ys : List (Step E)) {e e' : E}
      → Undo key (xs ++ ys) e e'
      → (m : E) × Undo key xs e m × Undo key ys m e'
  Undo-split [] ys u = (_, Undo.stop, u)
  Undo-split (x ∷ xs) ys (Undo.undid p u) =
      let (m, left, right) = Undo-split xs ys u in (m, Undo.undid p left, right)

  undo_one :
      {P B Q C : E → Type 0} {step : Step E} {e e' : E}
      → IsStage (context key) P B step Q C
      → Undo key (step ∷ []) e e'
      → C e
      → B e'
  undo_one s (Undo.undid p Undo.stop) c = s.returns _ _ c p

  Undo-Stages :
      {P B Q C : E → Type 0} {completed : List (Step E)} {e e' : E}
      → Stages (context key) P B completed Q C
      → Undo key (reverse completed) e e'
      → C e
      → B e'
  Undo-Stages Stages.last Undo.stop c = c
  Undo-Stages (Stages.stage {step = step} {rest = rest} s stages) u c =
      let (m, inner, outer) = Undo-split (reverse rest) (step ∷ []) (rw reverse-cons at u) in
      undo_one s outer (Undo-Stages stages inner c)

  module _ (reason : Step E → SagaError → String) where
    Rolls-Stages :
        {P B Q C : E → Type 0} (R : E → Type 0) {completed : List (Step E)} {failed_step : String}
        {error : SagaError} {e e' : E} {outcome : SagaOutcome}
        → Stages (context key) P B completed Q C
        → C e
        → Rolls key reason failed_step error (reverse completed) e outcome e'
        → Ended B R outcome e'
    Rolls-Stages R stages c (Rolls.clean u) = Undo-Stages stages u c
    Rolls-Stages R stages c (Rolls.stuck undone step left cause split u failed) = tt

    pub Runs-Stages :
        {P B R D : E → Type 0} {steps : List (Step E)} {e e' : E} {outcome : SagaOutcome}
        → Stages (context key) P B steps R D
        → P e
        → Runs key reason steps e outcome e'
        → Ended B R outcome e'
    Runs-Stages stages p (Runs.commits f) = Forward-Stages stages f p
    Runs-Stages stages p (Runs.rolls completed step rest error split f q rolls) =
        let (Q, C, Q', C', before, here) = Stages-split completed step rest (rw split at stages) in
        Rolls-Stages _ before (here.fails _ _ error (Forward-Stages before f p) q) rolls

module _ {S Json E : Type 0} (store : StateStore S Json) (std : Std S) (saga : Saga E)
    {holds : S → Bool} {log : S → List SagaEvent} {latest : S → Option DeploymentState}
    (locks : Locks store saga.key holds) (records : Records store saga.key log latest)
    (P B R D : E → Type 0) (stages : Stages (context saga.key) P B saga.steps R D) where
  -- Between each two steps there are a condition on the way forward and one on the way back: a step
  -- takes one condition forward to the next, leaves the condition back when it fails, and its
  -- compensation takes the next condition back to this one. Over a store that keeps its contract and
  -- whose lock is free, a run that starts where the first condition forward holds returns an outcome;
  -- if it commits the last condition forward holds at its end, and if it rolls back the first one back
  -- does, which may be the one that it started from.
  pub run_with_state-Ended :
      (s : S) (e : E)
      → holds s ≡ false
      → P e
      → (outcome : SagaOutcome) × (s' : S) × (e' : E) × (run_with_state store std saga s e
          ≡ (ok outcome, s', e'))
        × Ended B R outcome e'
  run_with_state-Ended s e free p =
      let (outcome, s', e', q, runs) = run_with_state-Runs store std saga locks records s e free in
      (outcome, s', e', q, Runs-Stages saga.key _ stages p runs)
