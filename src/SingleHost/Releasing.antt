-- ===== src/SingleHost/Releasing.antt =====
-- What activating and restarting do to the host, and the compensation of the activation: single_host.rs.
use fraisier_core.Common.{
  ◌≡◌, refl, sym, ◌∙◌, ap, subst, inl, inr, Option, none, some, Result, ok, err, Done, map_err,
}
use fraisier_core.Saga.Types.{SagaError}
use fraisier_core.BlueGreen.Types.{and_then}
use fraisier_core.Adapters.Errors.{AdapterError}
use fraisier_core.Adapters.Context.{Revision, StagedArtifact}
use fraisier_core.SingleHost.Types.{
  DeployRecord, SingleHostDeploy, shared_ctx, DeployRuntime, failed, on_world,
}
use fraisier_core.SingleHost.Steps.{
  activate_staged, run_activate, restart_for, restart_after, activate_prior, run_restart,
}
use fraisier_core.SingleHost.Contract.{Seen, schema, live, serving, IsHost}
use fraisier_core.SingleHost.Conditions

module _ {W : Type 0} (deploy : SingleHostDeploy W) (seen : W → Seen) (host : IsHost deploy seen)
    (prior : DeployRecord) (before : Option Revision) where
  abbrev Moved : DeployRuntime → Option Revision → Type 0
  Moved = Conditions.Moved deploy seen host prior before

  abbrev Migrated : DeployRuntime → Seen → Type 0
  Migrated = Conditions.Migrated deploy seen host prior before

  abbrev MigratedBack : DeployRuntime → Seen → Type 0
  MigratedBack = Conditions.MigratedBack deploy seen host prior before

  abbrev Activated : DeployRuntime → Seen → Type 0
  Activated = Conditions.Activated deploy seen host prior before

  abbrev Restarted : DeployRuntime → Seen → Type 0
  Restarted = Conditions.Restarted deploy seen host prior before

  abbrev Holds : (DeployRuntime → Seen → Type 0) → DeployRuntime × W → Type 0
  Holds = Conditions.Holds deploy seen host prior before

  abbrev Turned :
      (B Q : DeployRuntime → Seen → Type 0) → Result SagaError Done × (DeployRuntime × W) → Type 0
  Turned = Conditions.Turned deploy seen host prior before

  abbrev Returned :
      (DeployRuntime → Seen → Type 0) → Result SagaError Done × (DeployRuntime × W) → Type 0
  Returned = Conditions.Returned deploy seen host prior before

  activate_one :
      (runtime : DeployRuntime) (staged : StagedArtifact) (w : W) (r : Result AdapterError Done × W)
      → deploy.artifact.activate (shared_ctx deploy) deploy.host staged w ≡ r
      → runtime.staged ≡ some staged
      → Holds Migrated (runtime, w)
      → Turned MigratedBack Activated (map_err (failed "activate") r.0, (runtime, r.1))
  activate_one runtime staged w (ok _, w') e known p =
      let placed = host.activates (shared_ctx deploy) staged w w' e in
      (subst (Moved runtime) (sym (ap (λ s. s.0) placed)) p.0, known ∙ sym (ap (λ s. s.1.0) placed))
  activate_one runtime staged w (err x, w') e known p =
      let kept =
        ap (λ r. (schema deploy seen r.1, serving deploy seen r.1)) (sym e)
        ∙ host.activating (shared_ctx deploy) staged w in
      (
        subst (Moved runtime) (sym (ap (λ s. s.0) kept)) p.0,
        (
          inr (staged, w, w', x, ap (λ s. s.0) p.1, e, refl),
          ap (λ s. s.1) kept ∙ ap (λ s. s.1) p.1,
        ),
      )

  activate_staged-Turned :
      (runtime : DeployRuntime) (w : W) (o : Option StagedArtifact)
      → runtime.staged ≡ o
      → Holds Migrated (runtime, w)
      → Turned MigratedBack Activated (on_world (activate_staged deploy o) (runtime, w))
  unfolding activate_staged
  activate_staged-Turned runtime w none known p =
      Conditions.Migrated-back deploy seen host prior before runtime (seen w) p
  activate_staged-Turned runtime w (some staged) known p =
      activate_one runtime staged w _ refl known p

  pub run_activate-Turned :
      (e : DeployRuntime × W)
      → Holds Migrated e
      → Turned MigratedBack Activated (run_activate deploy e)
  unfolding run_activate
  run_activate-Turned (runtime, w) p = activate_staged-Turned runtime w runtime.staged refl p

  -- The restart of a compensation, once the prior release is active again.
  restart_prior :
      (runtime : DeployRuntime) (w : W) (r : Result AdapterError Done × W)
      → deploy.service.restart (shared_ctx deploy) deploy.host w ≡ r
      → Moved runtime (schema deploy seen w)
      → live deploy seen w ≡ prior.active
      → Returned MigratedBack (map_err (failed "activate") r.0, (runtime, r.1))
  restart_prior runtime w (ok _, w') e moved active =
      let running = host.restarts (shared_ctx deploy) w w' e in
      (
        subst (Moved runtime) (sym (ap (λ s. s.0) running)) moved,
        (inl (ap (λ s. s.1.0) running ∙ active), ap (λ s. s.1.1) running ∙ active),
      )
  restart_prior runtime w (err x, w') e moved active = tt

  activate_again :
      (runtime : DeployRuntime) (previous : StagedArtifact) (w : W)
      (r : Result AdapterError Done × W)
      → deploy.artifact.activate (shared_ctx deploy) deploy.host previous w ≡ r
      → some previous ≡ prior.active
      → Moved runtime (schema deploy seen w)
      → Returned MigratedBack (
          let q = and_then (restart_after deploy) (map_err (failed "activate") r.0, r.1) in
          (q.0, (runtime, q.1)))
  unfolding restart_for
  activate_again runtime previous w (ok _, w') e known moved =
      let placed = host.activates (shared_ctx deploy) previous w w' e in
      restart_prior runtime w' _ refl (subst (Moved runtime) (sym (ap (λ s. s.0) placed)) moved)
        (ap (λ s. s.1.0) placed ∙ known)
  activate_again runtime previous w (err x, w') e known moved = tt

  pub activate_prior-Returned :
      (runtime : DeployRuntime) (w : W) (o : Option StagedArtifact)
      → o ≡ prior.active
      → Moved runtime (schema deploy seen w)
      → Returned MigratedBack (on_world (activate_prior deploy o) (runtime, w))
  unfolding activate_prior
  activate_prior-Returned runtime w none known moved = tt
  activate_prior-Returned runtime w (some previous) known moved =
      activate_again runtime previous w _ refl known moved

  restart_staged :
      (runtime : DeployRuntime) (w : W) (r : Result AdapterError Done × W)
      → deploy.service.restart (shared_ctx deploy) deploy.host w ≡ r
      → Holds Activated (runtime, w)
      → Turned Activated Restarted (map_err (failed "restart") r.0, (runtime, r.1))
  restart_staged runtime w (ok _, w') e p =
      let running = host.restarts (shared_ctx deploy) w w' e in
      (
        subst (Moved runtime) (sym (ap (λ s. s.0) running)) p.0,
        p.1 ∙ sym (ap (λ s. s.1.0) running),
        ap (λ s. s.1.1) running ∙ sym (ap (λ s. s.1.0) running),
      )
  restart_staged runtime w (err x, w') e p =
      let (same, active) = host.restart_fails (shared_ctx deploy) w w' x e in
      (subst (Moved runtime) (sym same) p.0, p.1 ∙ sym active)

  pub run_restart-Turned :
      (e : DeployRuntime × W)
      → Holds Activated e
      → Turned Activated Restarted (on_world (run_restart deploy) e)
  unfolding restart_for
  run_restart-Turned (runtime, w) p = restart_staged runtime w _ refl p
