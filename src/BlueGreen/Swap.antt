-- ===== src/BlueGreen/Swap.antt =====
-- Where the traffic goes after each step of a blue-green deploy, and at its end: blue_green.rs.
use mathlib.Core.Bool.{false≢true}
use fraisier_core.Common.{
  is_ok, map_err, ◌≡◌, refl, sym, ◌∙◌, ap, subst, Bool, true, false, Option, none, some, List,
  Result, ok, err, Done,
}
use fraisier_core.Saga.Types.{SagaEvent, SagaError, DeploymentState, SagaOutcome, StepContext}
use fraisier_core.Saga.Store.{StateStore, Locks, Records}
use fraisier_core.Saga.Driver.{Std, new, with_step}
use fraisier_core.Saga.Stages.{IsStage, Stages, last, stage, Ended, run_with_state-Ended}
use fraisier_core.Gate.Quiet.{Keeps}
use fraisier_core.BlueGreen.Types.{TrafficTarget, BgRuntime, no_runtime, BgShared, failed, Act}
use fraisier_core.BlueGreen.Preflight.{run_preflight}
use fraisier_core.BlueGreen.Deploy.{
  run_health_gate, lift, after_provision, run_provision_green, run_migrate, switch, swap_from,
  run_swap, switch_back, undo_swap, run_hold, run_reap, reap_if, undo_provision_green, Phase,
  forward, compensate, step, deploy, run,
}
use fraisier_core.BlueGreen.Traffic.{Steers, run_preflight-Keeps}

module _ {W Err : Type 0} (shared : BgShared W Err) (target : W → TrafficTarget)
    (steers : Steers shared target) where
  -- Before the swap the traffic goes to `prior`; after it, to green, and `prior` is remembered.
  abbrev pub Before : TrafficTarget → BgRuntime × W → Type 0
  Before prior (runtime, w) = target w ≡ prior

  abbrev pub After : TrafficTarget → BgRuntime × W → Type 0
  After prior (runtime, w) = (target w ≡ shared.green) × (runtime.prior_target ≡ some prior)

  -- What a part of a step that leaves the traffic and the run state alone keeps.
  module _ (act : Act W Done) (keeps : Keeps target act) (prior : TrafficTarget) where
    lift-Before : (e : BgRuntime × W) → Before prior e → Before prior (lift shared act e).1
    lift-Before (runtime, w) h = keeps w ∙ h

    lift-After : (e : BgRuntime × W) → After prior e → After prior (lift shared act e).1
    lift-After (runtime, w) h = (keeps w ∙ h.0, h.1)

  -- A step whose two actions keep a condition.
  quiet :
      (ctx : StepContext) (phase : Phase) (P : BgRuntime × W → Type 0)
      → ((e : BgRuntime × W) → P e → P (forward shared phase e).1)
      → ((e : BgRuntime × W) → P e → P (compensate shared phase e).1)
      → IsStage ctx P P (step shared phase) P P
  quiet ctx phase P on back = record {
    advances = λ e e' p q. subst P (ap (λ r. r.1) q) (on e p);
    fails = λ e e' x p q. subst P (ap (λ r. r.1) q) (on e p);
    returns = λ e e' p q. subst P (ap (λ r. r.1) q) (back e p);
  }

  after_provision-Before :
      (prior : TrafficTarget) (runtime : BgRuntime) (r : Result SagaError Done × W)
      → target r.1 ≡ prior
      → Before prior (after_provision shared runtime r).1
  unfolding after_provision
  after_provision-Before prior runtime (ok _, w) h = h
  after_provision-Before prior runtime (err e, w) h = h

  run_provision_green-Before :
      (prior : TrafficTarget) (e : BgRuntime × W)
      → Before prior e
      → Before prior (run_provision_green shared e).1
  unfolding run_provision_green
  run_provision_green-Before prior (runtime, w) h =
      after_provision-Before prior runtime _ (steers.provision_green w ∙ h)

  reap_if-Keeps : (provisioned : Bool) → Keeps target (reap_if shared provisioned)
  unfolding reap_if
  reap_if-Keeps true w = steers.reap_green w
  reap_if-Keeps false w = refl

  undo_provision_green-Before :
      (prior : TrafficTarget) (e : BgRuntime × W)
      → Before prior e
      → Before prior (undo_provision_green shared e).1
  unfolding undo_provision_green
  undo_provision_green-Before prior (runtime, w) h = reap_if-Keeps runtime.green_provisioned w ∙ h

  module _ (t : TrafficTarget) (w w' : W) where
    switch-ok : switch shared t w ≡ (ok tt, w') → target w' ≡ t
    unfolding switch
    switch-ok q = go (shared.traffic.switch_to t w) refl q
      where
        go :
            (r : Result Err Done × W)
            → shared.traffic.switch_to t w ≡ r
            → ◌≡◌ {A = Result SagaError Done × W}
                (map_err (λ e. failed "swap-traffic" (shared.show e)) r.0, r.1)
                (ok tt, w')
            → target w' ≡ t
        go (ok u, w₁) e q = ap (λ r. target r.1) (sym q) ∙ steers.moves t w w₁ e
        go (err x, w₁) e q = absurd (false≢true (ap (λ r. is_ok r.0) q))

    switch-err : {x : SagaError} → switch shared t w ≡ (err x, w') → target w' ≡ target w
    unfolding switch
    switch-err {x = x} q = go (shared.traffic.switch_to t w) refl q
      where
        go :
            (r : Result Err Done × W)
            → shared.traffic.switch_to t w ≡ r
            → ◌≡◌ {A = Result SagaError Done × W}
                (map_err (λ e. failed "swap-traffic" (shared.show e)) r.0, r.1)
                (err x, w')
            → target w' ≡ target w
        go (ok u, w₁) e q = absurd (false≢true (sym (ap (λ r. is_ok r.0) q)))
        go (err y, w₁) e q = ap (λ r. target r.1) (sym q) ∙ steers.fails t w w₁ y e

  switch_back-ok :
      (o : Option TrafficTarget) (prior : TrafficTarget) (w w' : W)
      → o ≡ some prior
      → switch_back shared o w ≡ (ok tt, w')
      → target w' ≡ prior
  unfolding switch_back
  switch_back-ok none prior w w' e q = cc
  switch_back-ok (some t) prior w w' e q = cc (switch-ok t w w' q, e)

  module _ (prior : TrafficTarget) (runtime : BgRuntime) (w : W) (h : target w ≡ prior) where
    swap_from-After :
        (r : Result Err TrafficTarget × W) (e' : BgRuntime × W)
        → shared.traffic.current_target w ≡ r
        → swap_from shared runtime r ≡ (ok tt, e')
        → After prior e'
    unfolding swap_from
    swap_from-After (ok t, w₁) (runtime', w₂) e q = (
      switch-ok shared.green w₁ w₂ (ap (λ r. (r.0, r.1.1)) q),
      sym (ap (λ r. r.1.0.prior_target) q) ∙ ap some (steers.reads w w₁ t e ∙ h),
    )
    swap_from-After (err x, w₁) e' e q = absurd (false≢true (ap (λ r. is_ok r.0) q))

    swap_from-Before :
        (r : Result Err TrafficTarget × W) (e' : BgRuntime × W) (x : SagaError)
        → shared.traffic.current_target w ≡ r
        → swap_from shared runtime r ≡ (err x, e')
        → Before prior e'
    unfolding swap_from
    swap_from-Before (ok t, w₁) (runtime', w₂) x e q =
        switch-err shared.green w₁ w₂ (ap (λ r. (r.0, r.1.1)) q)
        ∙ (ap (λ r. target r.1) (sym e) ∙ (steers.reading w ∙ h))
    swap_from-Before (err y, w₁) (runtime', w₂) x e q =
        ap (λ r. target r.1.1) (sym q) ∙ (ap (λ r. target r.1) (sym e) ∙ (steers.reading w ∙ h))

  swap-IsStage :
      (ctx : StepContext) (prior : TrafficTarget)
      → IsStage ctx
          (Before prior)
          (Before prior)
          (step shared Phase.swap_traffic)
          (After prior)
          (After prior)
  unfolding run_swap undo_swap
  swap-IsStage ctx prior = record {
    advances = λ (runtime, w) e' h q.
        swap_from-After prior runtime w h (shared.traffic.current_target w) e' refl q;
    fails = λ (runtime, w) e' x h q.
        swap_from-Before prior runtime w h (shared.traffic.current_target w) e' x refl q;
    returns = λ (runtime, w) (runtime', w') h q.
        switch_back-ok runtime.prior_target prior w w' h.1 (ap (λ r. (r.0, r.1.1)) q);
  }

  run_health_gate-Keeps : Keeps target (run_health_gate shared)
  unfolding run_health_gate
  run_health_gate-Keeps w = steers.green_healthy w

  run_migrate-Keeps : Keeps target (run_migrate shared)
  unfolding run_migrate
  run_migrate-Keeps w = steers.up w

  run_hold-Keeps : Keeps target (run_hold shared)
  unfolding run_hold
  run_hold-Keeps w = steers.watch_green shared.hold w

  run_reap-Keeps : Keeps target (run_reap shared)
  unfolding run_reap
  run_reap-Keeps w = steers.reap_blue w

  pub deploy-Stages :
      (ctx : StepContext) (prior : TrafficTarget)
      → Stages ctx (Before prior) (Before prior) (deploy shared).steps (After prior) (After prior)
  unfolding deploy new with_step
  deploy-Stages ctx prior =
      stage
        (quiet ctx Phase.preflight (Before prior)
          (lift-Before (run_preflight shared) (run_preflight-Keeps shared target steers) prior)
          (λ e h. h))
        (stage
          (quiet ctx Phase.provision_green (Before prior) (run_provision_green-Before prior)
            (undo_provision_green-Before prior))
          (stage
            (quiet ctx Phase.migrate (Before prior)
              (lift-Before (run_migrate shared) run_migrate-Keeps prior) (λ e h. h))
            (stage
              (quiet ctx Phase.health_gate_green (Before prior)
                (lift-Before (run_health_gate shared) run_health_gate-Keeps prior) (λ e h. h))
              (stage (swap-IsStage ctx prior) (
                stage
                  (quiet ctx Phase.hold (After prior)
                    (lift-After (run_hold shared) run_hold-Keeps prior) (λ e h. h))
                  (stage
                    (quiet ctx Phase.reap (After prior)
                      (lift-After (run_reap shared) run_reap-Keeps prior) (λ e h. h))
                    last))))))

  -- Where the traffic goes once a deploy has ended so.
  abbrev pub Routed : TrafficTarget → SagaOutcome → W → Type 0
  Routed prior SagaOutcome.committed w = target w ≡ shared.green
  Routed prior (SagaOutcome.rolled_back failed_step reason) w = target w ≡ prior
  Routed prior (SagaOutcome.partial_rollback reason) w = Unit

  Ended-Routed :
      (prior : TrafficTarget) (outcome : SagaOutcome) (e : BgRuntime × W)
      → Ended (Before prior) (After prior) outcome e
      → Routed prior outcome e.1
  Ended-Routed prior SagaOutcome.committed e h = h.0
  Ended-Routed prior (SagaOutcome.rolled_back failed_step reason) e h = h
  Ended-Routed prior (SagaOutcome.partial_rollback reason) e h = tt

module _ {S Json W Err : Type 0} (store : StateStore S Json) (std : Std S) (shared : BgShared W Err)
    (target : W → TrafficTarget) (steers : Steers shared target) {holds : S → Bool}
    {log : S → List SagaEvent} {latest : S → Option DeploymentState}
    (locks : Locks store (deploy shared).key holds)
    (records : Records store (deploy shared).key log latest) where
  -- Over a store that keeps its contract and whose lock is free, and with collaborators that keep
  -- theirs, a blue-green deploy returns an outcome; if it commits the traffic goes to green, and if
  -- it rolls back it goes where it went before the deploy.
  pub run-Routed :
      (s : S) (w : W)
      → holds s ≡ false
      → (outcome : SagaOutcome) × (s' : S) × (e' : BgRuntime × W) × (run shared store std s w
          ≡ (ok outcome, s', e'))
        × Routed shared target steers (target w) outcome e'.1
  unfolding run
  run-Routed s w free =
      let prior = target w in
      let (outcome, s', e', q, ended) =
        run_with_state-Ended store std (deploy shared) locks records
          (Before shared target steers prior) (Before shared target steers prior)
          (After shared target steers prior) (After shared target steers prior)
          (deploy-Stages shared target steers _ prior) s (no_runtime, w) free refl in
      (outcome, s', e', q, Ended-Routed shared target steers prior outcome e' ended)
