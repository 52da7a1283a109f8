-- ===== src/SingleHost/Stages.antt =====
-- What holds between the steps of a single-host deploy, single_host.rs, for collaborators that keep
-- their contract.
use fraisier_core.Common.{refl, inl, inr, Option, Bool-cases}
use fraisier_core.Saga.Types.{StepContext}
use fraisier_core.Saga.Stages.{Stages, last, stage}
use fraisier_core.Saga.Driver.{new, with_step}
use fraisier_core.Gate.Quiet.{Keeps}
use fraisier_core.BlueGreen.Types.{call}
use fraisier_core.BlueGreen.Traffic.{bind-Keeps}
use fraisier_core.Adapters.Context.{Revision}
use fraisier_core.Adapters.Axes.{VerifyReport, HealthStatus}
use fraisier_core.SingleHost.Types.{
  DeployRecord, SingleHostDeploy, shared_ctx, DeployRuntime, failed,
}
use fraisier_core.SingleHost.Steps.{judge_health, run_health, judge_verify, run_verify}
use fraisier_core.SingleHost.Deploy.{Phase, saga}
use fraisier_core.SingleHost.Contract.{Seen, IsHost}
use fraisier_core.SingleHost.Quiet.{run_preflight-Keeps}
use fraisier_core.SingleHost.Conditions
use fraisier_core.SingleHost.Migrating.{run_fetch-Turned, run_migrate-Turned, undo_migrate-Returned}
use fraisier_core.SingleHost.Releasing.{
  run_activate-Turned, activate_prior-Returned, run_restart-Turned,
}

module _ {W : Type 0} (deploy : SingleHostDeploy W) (seen : W → Seen) (host : IsHost deploy seen)
    (prior : DeployRecord) (before : Option Revision) where
  abbrev Before : DeployRuntime → Seen → Type 0
  Before = Conditions.Before deploy seen host prior before

  abbrev BeforeBack : DeployRuntime → Seen → Type 0
  BeforeBack = Conditions.BeforeBack deploy seen host prior before

  abbrev Migrated : DeployRuntime → Seen → Type 0
  Migrated = Conditions.Migrated deploy seen host prior before

  abbrev MigratedBack : DeployRuntime → Seen → Type 0
  MigratedBack = Conditions.MigratedBack deploy seen host prior before

  abbrev Activated : DeployRuntime → Seen → Type 0
  Activated = Conditions.Activated deploy seen host prior before

  abbrev Restarted : DeployRuntime → Seen → Type 0
  Restarted = Conditions.Restarted deploy seen host prior before

  abbrev Holds : (DeployRuntime → Seen → Type 0) → DeployRuntime × W → Type 0
  Holds = Conditions.Holds deploy seen host prior before

  judge_health-Keeps : (status : HealthStatus) → Keeps seen (judge_health deploy status)
  unfolding judge_health
  judge_health-Keeps status w = elim (Bool-cases status.healthy) [
    | inl e ↦ rw (e, judge_health) refl
    | inr e ↦ rw (e, judge_health) refl
  ]

  run_health-Keeps : Keeps seen (run_health deploy)
  unfolding run_health
  run_health-Keeps =
      bind-Keeps seen (call (failed "health") (deploy.health.check (shared_ctx deploy) deploy.host))
        (judge_health deploy) (host.quiet.checking (shared_ctx deploy)) judge_health-Keeps

  judge_verify-Keeps : (report : VerifyReport) → Keeps seen (judge_verify deploy report)
  unfolding judge_verify
  judge_verify-Keeps report w = elim (Bool-cases report.ok) [
    | inl e ↦ rw (e, judge_verify) refl
    | inr e ↦ rw (e, judge_verify) refl
  ]

  run_verify-Keeps : Keeps seen (run_verify deploy)
  unfolding run_verify
  run_verify-Keeps =
      bind-Keeps seen (call (failed "verify") (deploy.migration.verify (shared_ctx deploy)))
        (judge_verify deploy) (host.quiet.verifying (shared_ctx deploy)) judge_verify-Keeps

  pub saga-Stages :
      (ctx : StepContext)
      → Stages ctx
          (Holds Before)
          (Holds BeforeBack)
          (saga (Conditions.shared deploy seen host prior before)).steps
          (Holds Restarted)
          (Holds Restarted)
  unfolding saga new with_step
  saga-Stages ctx =
      stage
        (Conditions.stage_of deploy seen host prior before ctx Phase.preflight Before BeforeBack
          Before BeforeBack
          (λ (runtime, w) p.
            Conditions.Turned-Before deploy seen host prior before _ (seen w)
              (run_preflight-Keeps deploy seen host.quiet (runtime, w)) p)
          (λ e p. p))
        (stage
          (Conditions.stage_of deploy seen host prior before ctx Phase.fetch Before BeforeBack
            Before BeforeBack (run_fetch-Turned deploy seen host prior before) (λ e p. p))
          (stage
            (Conditions.stage_of deploy seen host prior before ctx Phase.migrate Before BeforeBack
              Migrated MigratedBack (run_migrate-Turned deploy seen host prior before)
              (undo_migrate-Returned deploy seen host prior before))
            (stage
              (Conditions.stage_of deploy seen host prior before ctx Phase.activate Migrated
                MigratedBack Activated Activated (run_activate-Turned deploy seen host prior before)
                (λ (runtime, w) p.
                  (activate_prior-Returned deploy seen host prior before) runtime w prior.active
                    refl p.0))
              (stage
                (Conditions.stage_of deploy seen host prior before ctx Phase.restart Activated
                  Activated Restarted Restarted (run_restart-Turned deploy seen host prior before)
                  (λ (runtime, w) p. (p.0, p.1)))
                (stage
                  (Conditions.stage_of deploy seen host prior before ctx Phase.health Restarted
                    Restarted Restarted Restarted
                    (λ (runtime, w) p.
                      Conditions.Turned-same deploy seen host prior before Restarted runtime
                        (seen w) (run_health deploy w) (run_health-Keeps w) p)
                    (λ e p. p))
                  (stage
                    (Conditions.stage_of deploy seen host prior before ctx Phase.verify Restarted
                      Restarted Restarted Restarted
                      (λ (runtime, w) p.
                        Conditions.Turned-same deploy seen host prior before Restarted runtime
                          (seen w) (run_verify deploy w) (run_verify-Keeps w) p)
                      (λ e p. p))
                    last))))))
