-- ===== src/SingleHost/Migrating.antt =====
-- What fetching and migrating do to the host, and the compensation of the migration: single_host.rs.
use mathlib.Core.Option
use fraisier_core.Common.{
  ◌≡◌, refl, sym, ◌∙◌, ap, inl, inr, Bool, true, false, Option, none, some, Result, ok, err, Done,
}
use fraisier_core.Saga.Types.{SagaError}
use fraisier_core.Adapters.Errors.{AdapterError}
use fraisier_core.Adapters.Context.{Revision, StagedArtifact, AdapterCtx, secret}
use fraisier_core.Adapters.Axes.{MigrationOutcome}
use fraisier_core.SingleHost.Types.{
  DeployRecord, SingleHostDeploy, shared_ctx, DeployRuntime, on_world,
}
use fraisier_core.SingleHost.Steps.{
  keep_staged, run_fetch, in_release, staged_ctx, keep_target, keep_outcome, move_schema,
  migrate_from, run_migrate, forget, move_back, undo_to, undo_migrate,
}
use fraisier_core.SingleHost.Contract.{Seen, schema, Reaches, IsHost}
use fraisier_core.SingleHost.Conditions

-- The revision that is recorded after an `up`: the reported one, or else the one before it.
or_else-now :
    (to previous was now : Option Revision)
    → to ≡ now
    → (now ≡ none → was ≡ none)
    → previous ≡ was
    → Option.or_else to previous ≡ now
unfolding Option.or_else
or_else-now (some r) previous was now reported applied known = reported
or_else-now none previous was now reported applied known = known ∙ applied (sym reported) ∙ reported

module _ {W : Type 0} (deploy : SingleHostDeploy W) (seen : W → Seen) (host : IsHost deploy seen)
    (prior : DeployRecord) (before : Option Revision) where
  abbrev Before : DeployRuntime → Seen → Type 0
  Before = Conditions.Before deploy seen host prior before

  abbrev BeforeBack : DeployRuntime → Seen → Type 0
  BeforeBack = Conditions.BeforeBack deploy seen host prior before

  abbrev Migrated : DeployRuntime → Seen → Type 0
  Migrated = Conditions.Migrated deploy seen host prior before

  abbrev MigratedBack : DeployRuntime → Seen → Type 0
  MigratedBack = Conditions.MigratedBack deploy seen host prior before

  abbrev Holds : (DeployRuntime → Seen → Type 0) → DeployRuntime × W → Type 0
  Holds = Conditions.Holds deploy seen host prior before

  abbrev Turned :
      (B Q : DeployRuntime → Seen → Type 0) → Result SagaError Done × (DeployRuntime × W) → Type 0
  Turned = Conditions.Turned deploy seen host prior before

  abbrev Returned :
      (DeployRuntime → Seen → Type 0) → Result SagaError Done × (DeployRuntime × W) → Type 0
  Returned = Conditions.Returned deploy seen host prior before

  keep_staged-Keeps :
      (runtime : DeployRuntime) (r : Result AdapterError StagedArtifact × W)
      → seen (keep_staged deploy runtime r).1.1 ≡ seen r.1
  unfolding keep_staged
  keep_staged-Keeps runtime (ok staged, w) = refl
  keep_staged-Keeps runtime (err e, w) = refl

  pub run_fetch-Turned :
      (e : DeployRuntime × W) → Holds Before e → Turned BeforeBack Before (run_fetch deploy e)
  unfolding run_fetch
  run_fetch-Turned (runtime, w) p =
      Conditions.Turned-Before deploy seen host prior before _ (seen w)
        (keep_staged-Keeps runtime _ ∙ host.quiet.staging (shared_ctx deploy) w) p

  Reaches-in_release :
      (staged : StagedArtifact) (is_dir : Bool)
      → Reaches deploy seen (in_release deploy staged is_dir)
  unfolding in_release secret
  Reaches-in_release staged true = refl
  Reaches-in_release staged false = refl

  Reaches-staged_ctx :
      (staged : Option StagedArtifact) (w : W) → Reaches deploy seen (staged_ctx deploy staged w)
  unfolding staged_ctx
  Reaches-staged_ctx none w = refl
  Reaches-staged_ctx (some staged) w = Reaches-in_release staged (deploy.is_dir staged.path w)

  module _ (ctx : AdapterCtx) (reaches : Reaches deploy seen ctx) where
    module _ (runtime : DeployRuntime) (w : W) (p : Holds Before (runtime, w))
        (previous : runtime.previous_revision ≡ before) where
      keep_target-Turned :
          (target : Revision) (r : Result AdapterError MigrationOutcome × W)
          → deploy.migration.down_to ctx target w ≡ r
          → Turned BeforeBack Migrated (keep_target deploy target runtime r)
      unfolding keep_target
      keep_target-Turned target (ok outcome, w') e = (
        (
          λ owns. (sym (host.downs owns ctx reaches target w w' outcome e), previous),
          λ bare.
              ap (λ r. schema deploy seen r.1) (sym e)
              ∙ host.down_nowhere bare ctx target w
              ∙ ap (λ s. s.0) p,
        ),
        ap (λ r. (seen r.1).1) (sym e) ∙ host.down_releases ctx target w ∙ ap (λ s. s.1) p,
      )
      keep_target-Turned target (err x, w') e = (
        inr (ctx, w, w', x, ap (λ s. s.0) p, inr (target, e), refl),
        Conditions.ReleasesBack-same deploy seen host prior before (seen w).1 (seen w').1
            (ap (λ r. (seen r.1).1) (sym e) ∙ host.down_releases ctx target w)
            (inl (ap (λ s. s.1.0) p), ap (λ s. s.1.1) p),
      )

      keep_outcome-Turned :
          (target : Option Revision) (r : Result AdapterError MigrationOutcome × W)
          → deploy.migration.up ctx target w ≡ r
          → Turned BeforeBack Migrated (keep_outcome deploy runtime r)
      unfolding keep_outcome
      keep_outcome-Turned target (ok outcome, w') e = (
        (
          λ owns. (
            or_else-now outcome.to runtime.previous_revision (schema deploy seen w)
                (schema deploy seen w') (host.reports owns ctx reaches target w w' outcome e)
                (host.applies owns ctx reaches target w w' outcome e)
                (previous ∙ sym (ap (λ s. s.0) p)),
            previous,
          ),
          λ bare.
              ap (λ r. schema deploy seen r.1) (sym e)
              ∙ host.up_nowhere bare ctx target w
              ∙ ap (λ s. s.0) p,
        ),
        ap (λ r. (seen r.1).1) (sym e) ∙ host.up_releases ctx target w ∙ ap (λ s. s.1) p,
      )
      keep_outcome-Turned target (err x, w') e = (
        inr (ctx, w, w', x, ap (λ s. s.0) p, inl (target, e), refl),
        Conditions.ReleasesBack-same deploy seen host prior before (seen w).1 (seen w').1
            (ap (λ r. (seen r.1).1) (sym e) ∙ host.up_releases ctx target w)
            (inl (ap (λ s. s.1.0) p), ap (λ s. s.1.1) p),
      )

      move_schema-Turned :
          (o : Option Revision) → Turned BeforeBack Migrated (move_schema deploy o ctx (runtime, w))
      unfolding move_schema
      move_schema-Turned (some target) = keep_target-Turned target _ refl
      move_schema-Turned none = keep_outcome-Turned deploy.target _ refl

    migrate_from-Turned :
        (runtime : DeployRuntime) (w : W) (r : Result AdapterError (Option Revision) × W)
        → Holds Before (runtime, w)
        → deploy.migration.current_revision ctx w ≡ r
        → Turned BeforeBack Migrated (migrate_from deploy ctx runtime r)
    unfolding migrate_from
    migrate_from-Turned runtime w (ok previous, w') p e =
        move_schema-Turned (record runtime { previous_revision = previous }) w'
          (ap (λ r. seen r.1) (sym e) ∙ host.quiet.reading ctx w ∙ p)
          (host.reads ctx reaches w w' previous e ∙ ap (λ s. s.0) p) deploy.rollback_to
    migrate_from-Turned runtime w (err x, w') p e =
        Conditions.Before-back deploy seen host prior before runtime (seen w')
          (ap (λ r. seen r.1) (sym e) ∙ host.quiet.reading ctx w ∙ p)

    module _ (runtime : DeployRuntime) (w : W) (p : Holds MigratedBack (runtime, w))
        (owns : deploy.migration.owns_database ≡ true) (previous : Revision)
        (known : some previous ≡ before) where
      forget-down :
          (r : Result AdapterError MigrationOutcome × W)
          → deploy.migration.down_to ctx previous w ≡ r
          → Returned BeforeBack ((forget deploy r).0, (runtime, (forget deploy r).1))
      unfolding forget
      forget-down (ok outcome, w') e = (
        inl (host.downs owns ctx reaches previous w w' outcome e ∙ known),
        Conditions.ReleasesBack-same deploy seen host prior before (seen w).1 (seen w').1
            (ap (λ r. (seen r.1).1) (sym e) ∙ host.down_releases ctx previous w) p.1,
      )
      forget-down (err x, w') e = tt

      forget-up :
          (r : Result AdapterError MigrationOutcome × W)
          → deploy.migration.up ctx (some previous) w ≡ r
          → Returned BeforeBack ((forget deploy r).0, (runtime, (forget deploy r).1))
      unfolding forget
      forget-up (ok outcome, w') e = (
        inl (host.ups_to owns ctx reaches previous w w' outcome e ∙ known),
        Conditions.ReleasesBack-same deploy seen host prior before (seen w).1 (seen w').1
            (ap (λ r. (seen r.1).1) (sym e) ∙ host.up_releases ctx (some previous) w) p.1,
      )
      forget-up (err x, w') e = tt

      move_back-Returned :
          (o : Option Revision)
          → Returned BeforeBack (on_world (move_back deploy o ctx previous) (runtime, w))
      unfolding move_back
      move_back-Returned (some target) = forget-up _ refl
      move_back-Returned none = forget-down _ refl

  pub run_migrate-Turned :
      (e : DeployRuntime × W) → Holds Before e → Turned BeforeBack Migrated (run_migrate deploy e)
  unfolding run_migrate
  run_migrate-Turned (runtime, w) p =
      migrate_from-Turned (staged_ctx deploy runtime.staged w) (Reaches-staged_ctx runtime.staged w)
        runtime w _ p refl

  undo_to-Returned :
      (runtime : DeployRuntime) (w : W) (o : Option Revision)
      → Holds MigratedBack (runtime, w)
      → deploy.migration.owns_database ≡ true
      → o ≡ before
      → Returned BeforeBack (undo_to deploy o (runtime, w))
  unfolding undo_to
  undo_to-Returned runtime w none p owns known = tt
  undo_to-Returned runtime w (some previous) p owns known =
      move_back-Returned (staged_ctx deploy runtime.staged w) (Reaches-staged_ctx runtime.staged w)
        runtime w p owns previous known deploy.rollback_to

  pub undo_migrate-Returned :
      (e : DeployRuntime × W) → Holds MigratedBack e → Returned BeforeBack (undo_migrate deploy e)
  unfolding undo_migrate
  undo_migrate-Returned (runtime, w) p = go deploy.migration.owns_database refl
    where
      go :
          (owns : Bool)
          → deploy.migration.owns_database ≡ owns
          → Returned BeforeBack (elim owns [
            | false ↦ (ok tt, (runtime, w))
            | true ↦ undo_to deploy runtime.previous_revision (runtime, w)
          ])
      go true e = undo_to-Returned runtime w runtime.previous_revision p e ((p.0.0 e).1)
      go false e = (inl (p.0.1 e), p.1)
