-- ===== src/Saga/Keeps.antt =====
-- What a run leaves alone: a view of the store that no write of the run's key changes. Every write may
-- fail.
use fraisier_core.Common.{
  ℕ, none, ◌≡◌, refl, ◌∙◌, String, List, [], ◌∷◌, ◌++◌, reverse, Result, ok, err, Done, map_err,
}
use fraisier_core.Saga.Types.{
  SagaState, SagaEvent, DeploymentState, state_transition, SagaError, FraiseKey, StateStoreError,
  SagaOutcome,
}
use fraisier_core.Saga.Store.{StateStore}
use fraisier_core.Saga.Driver.{
  Step, Std, Run, pure, attempt, gets, persist, and_then, ◌>>=◌, transition, after_compensate,
  after_forward, rollback_from, rollback, execute_from, after_release,
}

-- The failure, if the result is one, is the store's.
abbrev pub IsStoreFailure {ℓ} : {A : Type ℓ} → Result SagaError A → Type 0
IsStoreFailure (ok a) = Unit
IsStoreFailure (err (SagaError.store x)) = Unit
IsStoreFailure (err (SagaError.step_failed step message)) = ⊥

module _ {S E V : Type 0} (view : S → V) where
  -- The computation leaves the view as it is, and fails by the store alone.
  pub record Keeps {A : Type 0} (m : Run S E A) : Type 0 where
    pub same : (s : S) (e : E) → view (m s e).1 ≡ view s
    pub cause : (s : S) (e : E) → IsStoreFailure (m s e).0

module _ {S E A V : Type 0} {view : S → V} where
  Keeps-pure : (a : A) → Keeps view (pure {S = S} {E = E} a)
  Keeps-pure a = record { same = λ s e. refl; cause = λ s e. tt }

  Keeps-attempt : (act : E → A × E) → Keeps view (attempt {S = S} act)
  Keeps-attempt act = record { same = λ s e. refl; cause = λ s e. tt }

  Keeps-gets : (f : S → A) → Keeps view (gets {E = E} f)
  Keeps-gets f = record { same = λ s e. refl; cause = λ s e. tt }

IsStoreFailure-map :
    {A : Type 0} (r : Result StateStoreError A) → IsStoreFailure (map_err SagaError.store r)
IsStoreFailure-map (ok a) = tt
IsStoreFailure-map (err x) = tt

pub IsStoreFailure-after_release :
    (released : Result StateStoreError Done) (outcome : Result SagaError SagaOutcome)
    → IsStoreFailure outcome
    → IsStoreFailure (after_release released outcome)
unfolding after_release
IsStoreFailure-after_release (ok _) outcome h = h
IsStoreFailure-after_release (err x) (ok _) h = tt
IsStoreFailure-after_release (err x) (err y) h = h

module _ {S E A B V : Type 0} {view : S → V} where
  Keeps-result :
      (r : Result SagaError A) (f : A → Run S E B)
      → IsStoreFailure r
      → ((a : A) → Keeps view (f a))
      → Keeps view (and_then r f)
  Keeps-result (ok a) f c k = k a
  Keeps-result (err (SagaError.store x)) f c k = record { same = λ s e. refl; cause = λ s e. tt }
  Keeps-result (err (SagaError.step_failed step message)) f c k = absurd c

  Keeps-bind :
      (m : Run S E A) (f : A → Run S E B)
      → Keeps view m
      → ((a : A) → Keeps view (f a))
      → Keeps view (m >>= f)
  Keeps-bind m f k l = record {
    same = λ s e. (Keeps-result (m s e).0 f (k.cause s e) l).same (m s e).1 (m s e).2 ∙ k.same s e;
    cause = λ s e. (Keeps-result (m s e).0 f (k.cause s e) l).cause (m s e).1 (m s e).2;
  }

module _ {S Json E : Type 0} (store : StateStore S Json) (std : Std S) (key : FraiseKey)
    {V : Type 0} {view : S → V}
    (event_same : (s : S) (e : SagaEvent) → view (store.record_event key e s).1 ≡ view s)
    (state_same : (s : S) (d : DeploymentState)
      → view (store.record_state key d s).1 ≡ view s) where
  Keeps-persist :
      (act : S → Result StateStoreError Done × S)
      → ((s : S) → view (act s).1 ≡ view s)
      → Keeps view (persist {E = E} act)
  Keeps-persist act h = record { same = λ s e. h s; cause = λ s e. IsStoreFailure-map (act s).0 }

  Keeps-transition : (from to : SagaState) → Keeps {E = E} view (transition store std key from to)
  unfolding transition
  Keeps-transition from to =
      let snapshot : ℕ → DeploymentState =
        λ now. record { state = to; revision = none; recorded_at = now } in
      let event = state_transition from to in
      Keeps-bind _ _ (Keeps-persist (store.record_event key event) (λ s. event_same s event)) (λ _.
        Keeps-bind _ _ (Keeps-gets std.now) (λ now.
          Keeps-persist (store.record_state key (snapshot now)) (λ s. state_same s (snapshot now))))

  Keeps-after_compensate :
      (step : Step E) (next : Run S E SagaOutcome)
      → Keeps view next
      → (result : Result SagaError Done)
      → Keeps view (after_compensate store std key step next result)
  unfolding after_compensate
  Keeps-after_compensate step next k (ok _) = k
  Keeps-after_compensate step next k (err x) =
      Keeps-bind _ _ (Keeps-transition _ _) (λ _. Keeps-pure _)

  Keeps-rollback_from :
      (from : SagaState) (todo : List (Step E)) (failed_step : String) (error : SagaError)
      → Keeps view (rollback_from store std key from todo failed_step error)
  unfolding rollback_from
  Keeps-rollback_from from [] failed_step error =
      Keeps-bind _ _ (Keeps-transition _ _) (λ _. Keeps-pure _)
  Keeps-rollback_from from (step ∷ rest) failed_step error =
      let rolled = Keeps-rollback_from (SagaState.compensating step.name) rest failed_step error in
      Keeps-bind _ _ (Keeps-transition _ _)
        (λ _. Keeps-bind _ _ (Keeps-attempt _) (Keeps-after_compensate step _ rolled))

  Keeps-after_forward :
      (completed : List (Step E)) (step : Step E) (next : Run S E SagaOutcome)
      → Keeps view next
      → (result : Result SagaError Done)
      → Keeps view (after_forward store std key completed step next result)
  unfolding after_forward rollback
  Keeps-after_forward completed step next k (ok _) = k
  Keeps-after_forward completed step next k (err x) =
      Keeps-rollback_from (SagaState.running step.name) (reverse completed) step.name x

  pub Keeps-execute_from :
      (from : SagaState) (completed rest : List (Step E))
      → Keeps view (execute_from store std key from completed rest)
  unfolding execute_from
  Keeps-execute_from from completed [] = Keeps-bind _ _ (Keeps-transition _ _) (λ _. Keeps-pure _)
  Keeps-execute_from from completed (step ∷ rest) =
      let ran = Keeps-execute_from (SagaState.running step.name) (completed ++ step ∷ []) rest in
      Keeps-bind _ _ (Keeps-transition _ _)
        (λ _. Keeps-bind _ _ (Keeps-attempt _) (Keeps-after_forward completed step _ ran))
