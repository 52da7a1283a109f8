-- ===== src/Saga/Refinement.antt =====
-- The driver refines `Runs`, and what it records is a path of the lifecycle.
use mathlib.Core.List.{append_assoc, append-nil}
use fraisier_core.Common.{
  ◌≡◌, refl, sym, ◌∙◌, ap, String, Bool, false, Option, none, some, List, [], ◌∷◌, ◌++◌, reverse,
  Result, ok, err, Done, ◌⊎◌, inl, inr,
}
use fraisier_core.Saga.Types.{
  SagaState, SagaEvent, state_transition, SagaError, show_error, FraiseKey, DeploymentState,
  SagaOutcome,
}
use fraisier_core.Saga.Store.{StateStore, Locks, Records}
use fraisier_core.Saga.Driver.{
  Step, Saga, Std, context, compensation_reason, transition, after_compensate, rollback_from,
  rollback, after_forward, execute_from, execute, run_inner, run_with_state, after_release,
}
use fraisier_core.Saga.Lifecycle.{
  ◌⟶◌, start, advance, commit_empty, commit, turn, retreat, roll_first, roll, escalate, Chain,
  Chain-append, terminal,
}
use fraisier_core.Saga.Spec.{Forward, Undo, Rolls, Runs}

-- A call either succeeds or fails; the pair is given with its parts.
pub call-cases :
    {E : Type 0} (p : Result SagaError Done × E)
    → ((e : E) × (p ≡ (ok tt, e))) ⊎ ((x : SagaError) × (e : E) × (p ≡ (err x, e)))
call-cases (ok t, e) = inl (e, refl)
call-cases (err x, e) = inr (x, e, refl)

module _ {S : Type 0} (log : S → List SagaEvent) (latest : S → Option DeploymentState) where
  -- From `s` to `s'` the log grew by a path of the lifecycle, and its end is the current state.
  pub record Wrote (from to : SagaState) (s s' : S) : Type 0 where
    pub events : List SagaEvent
    pub path : Chain from events to
    pub logged : log s' ≡ log s ++ events
    pub current : DeploymentState
    pub is_current : latest s' ≡ some current
    pub at_end : current.state ≡ to

  pub Wrote-trans :
      {a b c : SagaState} {s s' s'' : S} → Wrote a b s s' → Wrote b c s' s'' → Wrote a c s s''
  Wrote-trans {a} {b} {c} {s} v w = record {
    events = v.events ++ w.events;
    path = Chain-append a b c v.events w.events v.path w.path;
    logged = w.logged ∙ ap (λ l. l ++ w.events) v.logged ∙ append_assoc (log s) v.events w.events;
    current = w.current;
    is_current = w.is_current;
    at_end = w.at_end;
  }

module _ {S Json E : Type 0} (store : StateStore S Json) (std : Std S) (key : FraiseKey)
    {log : S → List SagaEvent} {latest : S → Option DeploymentState}
    (records : Records store key log latest) where
  abbrev reason : Step E → SagaError → String
  reason = compensation_reason store std key

  -- The computation returns an outcome that `R` allows, and writes a path that ends in its state.
  abbrev Ends :
      Result SagaError SagaOutcome × S × E → SagaState → S → (SagaOutcome → E → Type 0) → Type 0
  Ends run from s R =
      (outcome : SagaOutcome) × (s' : S) × (e' : E) × (run ≡ (ok outcome, s', e'))
      × R outcome e'
      × Wrote log latest from (terminal outcome) s s'

  transition-Wrote :
      {from to : SagaState} (s : S) (e : E)
      → from ⟶ to
      → (s' : S) × (transition store std key from to s e ≡ (ok tt, s', e))
        × Wrote log latest from to s s'
  unfolding transition
  transition-Wrote {from} {to} s e edge =
      let event = state_transition from to in
      let s₁ = (store.record_event key event s).1 in
      let snapshot : DeploymentState = record {
        state = to;
        revision = none;
        recorded_at = std.now s₁;
      } in
      (
        (store.record_state key snapshot s₁).1,
        rw (records.record_event_ok s event, records.record_state_ok s₁ snapshot),
        record {
          events = event ∷ [];
          path = (refl, edge, refl);
          logged = records.log-record_state s₁ snapshot ∙ records.log-record_event s event;
          current = snapshot;
          is_current = records.latest-record_state s₁ snapshot;
          at_end = refl;
        },
      )

  Rolls-cons :
      {failed_step : String} {error : SagaError} {step : Step E} {todo : List (Step E)}
      {e e' e'' : E} {outcome : SagaOutcome}
      → step.compensate (context key) e ≡ (ok tt, e')
      → Rolls key reason failed_step error todo e' outcome e''
      → Rolls key reason failed_step error (step ∷ todo) e outcome e''
  Rolls-cons p (Rolls.clean u) = Rolls.clean (Undo.undid p u)
  Rolls-cons {step} p (Rolls.stuck undone culprit left cause split u q) =
      Rolls.stuck (step ∷ undone) culprit left cause (ap (λ l. step ∷ l) split) (Undo.undid p u) q

  rollback_from-Ends :
      (from : SagaState) (todo : List (Step E)) (failed_step : String) (error : SagaError) (s : S)
      (e : E)
      → from ⟶ SagaState.rolled_back
      → ((b : String) → from ⟶ SagaState.compensating b)
      → Ends
          (rollback_from store std key from todo failed_step error s e)
          from
          s
          (Rolls key reason failed_step error todo e)
  unfolding rollback_from after_compensate
  rollback_from-Ends from [] failed_step error s e last next =
      let (s₁, p, w) = transition-Wrote s e last in
      (
        SagaOutcome.rolled_back failed_step (show_error error),
        s₁,
        e,
        rw p,
        Rolls.clean Undo.stop,
        w,
      )
  rollback_from-Ends from (step ∷ rest) failed_step error s e last next =
      let (s₁, p, w) = transition-Wrote s e (next step.name) in
      elim (call-cases (step.compensate (context key) e)) [
        | inl (e₁, q) ↦
            let (outcome, s₂, e₂, r, rolls, w') =
              rollback_from-Ends (SagaState.compensating step.name) rest failed_step error s₁ e₁
                roll (λ b. retreat) in
            (outcome, s₂, e₂, rw p (rw q r), Rolls-cons q rolls, Wrote-trans log latest w w')
        | inr (x, e₁, q) ↦
            let (s₂, p', w') =
              transition-Wrote s₁ e₁ (escalate {a = step.name} {r = reason step x}) in
            (
              SagaOutcome.partial_rollback (reason step x),
              s₂,
              e₁,
              rw p (rw q (rw p')),
              Rolls.stuck [] step rest x refl Undo.stop q,
              Wrote-trans log latest w w',
            )
      ]

  Forward-snoc :
      (step : Step E) {completed : List (Step E)} {e e' e'' : E}
      → Forward key completed e e'
      → step.forward (context key) e' ≡ (ok tt, e'')
      → Forward key (completed ++ step ∷ []) e e''
  Forward-snoc step Forward.stop q = Forward.did q Forward.stop
  Forward-snoc step (Forward.did p f) q = Forward.did p (Forward-snoc step f q)

  execute_from-Ends :
      (from : SagaState) (completed rest : List (Step E)) (s : S) (e₀ e : E)
      → from ⟶ SagaState.committed
      → ((a : String) → from ⟶ SagaState.running a)
      → Forward key completed e₀ e
      → Ends
          (execute_from store std key from completed rest s e)
          from
          s
          (Runs key reason (completed ++ rest) e₀)
  unfolding execute_from rollback after_forward
  execute_from-Ends from completed [] s e₀ e last next done =
      let (s₁, p, w) = transition-Wrote s e last in
      (SagaOutcome.committed, s₁, e, rw p, rw append-nil (Runs.commits done), w)
  execute_from-Ends from completed (step ∷ rest) s e₀ e last next done =
      let (s₁, p, w) = transition-Wrote s e (next step.name) in
      elim (call-cases (step.forward (context key) e)) [
        | inl (e₁, q) ↦
            let (outcome, s₂, e₂, r, runs, w') =
              execute_from-Ends (SagaState.running step.name) (completed ++ step ∷ []) rest s₁ e₀ e₁
                commit (λ a. advance) (Forward-snoc step done q) in
            (outcome, s₂, e₂, rw p (rw q r), rw append_assoc at runs, Wrote-trans log latest w w')
        | inr (x, e₁, q) ↦
            let (outcome, s₂, e₂, r, rolls, w') =
              rollback_from-Ends (SagaState.running step.name) (reverse completed) step.name x s₁ e₁
                roll_first (λ b. turn) in
            (
              outcome,
              s₂,
              e₂,
              rw p (rw q r),
              Runs.rolls completed step rest x refl done q rolls,
              Wrote-trans log latest w w',
            )
      ]

  module _ {holds : S → Bool} (locks : Locks store key holds) where
    run_inner-Ends :
        (steps : List (Step E)) (s : S) (e : E)
        → holds s ≡ false
        → Ends (run_inner store std key steps s e) SagaState.idle s (Runs key reason steps e)
    unfolding run_inner execute after_release
    run_inner-Ends steps s e free =
        let s₁ = (store.acquire_lock key s).1 in
        let (outcome, s₂, e₂, r, runs, w) =
          execute_from-Ends SagaState.idle [] steps s₁ e e commit_empty (λ a. start) Forward.stop in
        (
          outcome,
          (store.release_lock (record { key = key }) s₂).1,
          e₂,
          rw (locks.acquire_free s free, r, records.release_lock_ok s₂),
          runs,
          record {
            events = w.events;
            path = w.path;
            logged =
                records.log-release_lock s₂
                ∙ w.logged
                ∙ ap (λ l. l ++ w.events) (records.log-acquire_lock s);
            current = w.current;
            is_current = records.latest-release_lock s₂ ∙ w.is_current;
            at_end = w.at_end;
          },
        )

module _ {S Json E : Type 0} (store : StateStore S Json) (std : Std S) (saga : Saga E)
    {holds : S → Bool} {log : S → List SagaEvent} {latest : S → Option DeploymentState}
    (locks : Locks store saga.key holds) (records : Records store saga.key log latest) (s : S)
    (e : E) (free : holds s ≡ false) where
  -- Over a store that keeps its contract and whose lock is free, a run returns an outcome, never an
  -- error, and the outcome and the final environment are those that `Runs` describes: every step
  -- went forward in order, or one failed and exactly the steps before it were compensated in
  -- reverse order, up to the first compensation that failed.
  pub run_with_state-Runs :
      (outcome : SagaOutcome) × (s' : S) × (e' : E) × (run_with_state store std saga s e
        ≡ (ok outcome, s', e'))
      × Runs saga.key (compensation_reason store std saga.key) saga.steps e outcome e'
  unfolding run_with_state
  run_with_state-Runs =
      let (outcome, s', e', p, runs, w) =
        run_inner-Ends store std saga.key records locks saga.steps s e free in
      (outcome, s', e', p, runs)

  -- Over such a store a run that returns an outcome has added to the event log a path of the
  -- lifecycle from `Idle` to the outcome's state, each event leaving the state that the one before
  -- it entered, and the current state is the outcome's.
  pub run_with_state-events :
      (outcome : SagaOutcome) (s' : S) (e' : E)
      → run_with_state store std saga s e ≡ (ok outcome, s', e')
      → (events : List SagaEvent) × (current : DeploymentState) × (store.events saga.key s'
          ≡ ok (log s ++ events))
        × Chain SagaState.idle events (terminal outcome)
        × (store.current_state saga.key s' ≡ ok (some current))
        × (current.state ≡ terminal outcome)
  unfolding run_with_state
  run_with_state-events outcome s' e' returned =
      let (o, t, e₂, p, runs, w) =
        run_inner-Ends store std saga.key records locks saga.steps s e free in
      let same = sym p ∙ returned in
      let same_outcome : o ≡ outcome =
        cc (ap (λ (r : Result SagaError SagaOutcome × S × E). r.0) same) in
      let same_store : t ≡ s' = ap (λ (r : Result SagaError SagaOutcome × S × E). r.1) same in
      rw (← same_outcome, ← same_store)
        (
          w.events,
          w.current,
          records.events-eq-log t ∙ ap ok w.logged,
          w.path,
          records.current_state-eq-latest t ∙ ap ok w.is_current,
          w.at_end,
        )
