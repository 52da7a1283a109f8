-- ===== src/SingleHost/Conditions.antt =====
-- The conditions between the steps of a single-host deploy, single_host.rs, on its way forward and on its
-- way back.
use fraisier_core.Common.{◌≡◌, sym, ◌∙◌, ap, subst, inl, true, false, Option, Result, ok, err, Done}
use fraisier_core.Saga.Types.{SagaError, StepContext}
use fraisier_core.Saga.Stages.{IsStage}
use fraisier_core.Adapters.Context.{Revision, StagedArtifact}
use fraisier_core.SingleHost.Types.{DeployRecord, SingleHostDeploy, DeployShared, DeployRuntime}
use fraisier_core.SingleHost.Deploy.{Phase, forward, compensate, step}
use fraisier_core.SingleHost.Contract.{Seen, SchemaBack, ReleasesBack, IsHost}

module _ {W : Type 0} (deploy : SingleHostDeploy W) (seen : W → Seen) (host : IsHost deploy seen)
    (prior : DeployRecord) (before : Option Revision) where
  abbrev pub shared : DeployShared W
  shared = record { deploy = deploy; prior = prior }

  -- Before the migration: the revision is `before`, and the prior release is active and runs.
  abbrev pub Before : DeployRuntime → Seen → Type 0
  Before runtime s = s ≡ (before, (prior.active, prior.active))

  -- On the way back: the revision and the active release are as before, or as a failed call left them, and
  -- the prior release runs.
  abbrev pub BeforeBack : DeployRuntime → Seen → Type 0
  BeforeBack runtime s =
      SchemaBack deploy seen before s.0 × ReleasesBack deploy seen prior.active s.1

  -- The revision is the one that the run state names, and the one to go back to is `before`.
  abbrev pub Moved : DeployRuntime → Option Revision → Type 0
  Moved runtime revision =
      (deploy.migration.owns_database ≡ true
        → (runtime.new_revision ≡ revision) × (runtime.previous_revision ≡ before))
      × (deploy.migration.owns_database ≡ false → revision ≡ before)

  abbrev pub Migrated : DeployRuntime → Seen → Type 0
  Migrated runtime s = Moved runtime s.0 × (s.1 ≡ (prior.active, prior.active))

  -- The same on the way back.
  abbrev pub MigratedBack : DeployRuntime → Seen → Type 0
  MigratedBack runtime s = Moved runtime s.0 × ReleasesBack deploy seen prior.active s.1

  pub Migrated-back :
      (runtime : DeployRuntime) (s : Seen) → Migrated runtime s → MigratedBack runtime s
  Migrated-back runtime s p = (p.0, (inl (ap (λ r. r.0) p.1), ap (λ r. r.1) p.1))

  pub Before-back : (runtime : DeployRuntime) (s : Seen) → Before runtime s → BeforeBack runtime s
  Before-back runtime s p = (inl (ap (λ r. r.0) p), (inl (ap (λ r. r.1.0) p), ap (λ r. r.1.1) p))

  -- The way back keeps to releases that a call left alone.
  pub ReleasesBack-same :
      (s t : Option StagedArtifact × Option StagedArtifact)
      → t ≡ s
      → ReleasesBack deploy seen prior.active s
      → ReleasesBack deploy seen prior.active t
  ReleasesBack-same s t same = subst (ReleasesBack deploy seen prior.active) (sym same)

  abbrev pub Activated : DeployRuntime → Seen → Type 0
  Activated runtime s = Moved runtime s.0 × (runtime.staged ≡ s.1.0)

  abbrev pub Restarted : DeployRuntime → Seen → Type 0
  Restarted runtime s = Moved runtime s.0 × (runtime.staged ≡ s.1.0) × (s.1.1 ≡ s.1.0)

  abbrev pub Holds : (DeployRuntime → Seen → Type 0) → DeployRuntime × W → Type 0
  Holds P (runtime, w) = P runtime (seen w)

  -- What a step's result tells: the next condition if it succeeded, the one on the way back if it failed.
  abbrev pub Turned :
      (B Q : DeployRuntime → Seen → Type 0) → Result SagaError Done × (DeployRuntime × W) → Type 0
  Turned B Q (ok _, e) = Holds Q e
  Turned B Q (err _, e) = Holds B e

  abbrev pub Returned :
      (DeployRuntime → Seen → Type 0) → Result SagaError Done × (DeployRuntime × W) → Type 0
  Returned P (ok _, e) = Holds P e
  Returned P (err _, e) = Unit

  pub stage_of :
      (ctx : StepContext) (phase : Phase) (P B Q C : DeployRuntime → Seen → Type 0)
      → ((e : DeployRuntime × W) → Holds P e → Turned B Q (forward shared phase e))
      → ((e : DeployRuntime × W) → Holds C e → Returned B (compensate shared phase e))
      → IsStage ctx (Holds P) (Holds B) (step shared phase) (Holds Q) (Holds C)
  stage_of ctx phase P B Q C on back = record {
    advances = λ e e' p q. subst (Turned B Q) q (on e p);
    fails = λ e e' x p q. subst (Turned B Q) q (on e p);
    returns = λ e e' p q. subst (Returned B) q (back e p);
  }

  -- A result of a call that left the run state and what is seen alone.
  pub Turned-same :
      (P : DeployRuntime → Seen → Type 0) (runtime : DeployRuntime) (s : Seen)
      (r : Result SagaError Done × W)
      → seen r.1 ≡ s
      → P runtime s
      → Turned P P (r.0, (runtime, r.1))
  Turned-same P runtime s (ok _, w) e p = subst (P runtime) (sym e) p
  Turned-same P runtime s (err _, w) e p = subst (P runtime) (sym e) p

  pub Turned-Before :
      (r : Result SagaError Done × (DeployRuntime × W)) (s : Seen)
      → seen r.1.1 ≡ s
      → s ≡ (before, (prior.active, prior.active))
      → Turned BeforeBack Before r
  Turned-Before (ok _, e) s same p = same ∙ p
  Turned-Before (err _, e) s same p = Before-back e.0 (seen e.1) (same ∙ p)
