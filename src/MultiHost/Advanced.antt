-- ===== src/MultiHost/Advanced.antt =====
-- What advancing one host comes to: multi_host.rs.
use mathlib.Core.Bool.{false≢true}
use fraisier_core.Common.{
  ◌≡◌, ◌≢◌, refl, sym, ◌∙◌, ap, Bool, true, false, Option, none, some, Result, ok, err, Done,
  is_none, inl, inr,
}
use fraisier_core.Common.Map.{Map, lookup}
use fraisier_core.Saga.Types.{SagaError}
use fraisier_core.Adapters.Errors.{AdapterError}
use fraisier_core.Adapters.Context.{StagedArtifact}
use fraisier_core.Adapters.Axes.{HealthStatus}
use fraisier_core.MultiHost.Batches.{HostEntry}
use fraisier_core.MultiHost.Host.{
  LbMembership, HostProgress, no_progress, RolloutShared, host_ctx, note_reattached, judge_host,
  after_check, after_restart, after_activate, activate_staged, after_drain, advance_host,
}
use fraisier_core.MultiHost.Contract.{Release, IsHost, Held, Marked}

module _ {W : Type 0} (shared : RolloutShared W) (entry : HostEntry) (membership : W → LbMembership)
    (release : W → Release) (laws : IsHost shared entry membership release) (was : LbMembership)
    (before : Release) where
  abbrev Marks : HostProgress → W → Type 0
  Marks = Marked shared entry membership release was before

  -- An advance marks how far it got, and if it succeeds then the host is back in the pool as before,
  -- runs the staged release, and was found healthy.
  abbrev pub Advanced : Option StagedArtifact → Result SagaError Done × (HostProgress × W) → Type 0
  Advanced staged (ok done, (progress, w)) =
      Marks progress w
      × (membership w ≡ was)
      × (release w ≡ (staged, staged))
      × (staged ≢ none)
      × (v v' : W) × (status : HealthStatus) × (shared.health.check (host_ctx shared entry)
            entry.host v
          ≡ (ok status, v'))
      × (status.healthy ≡ true)
  Advanced staged (err e, (progress, w)) = Marks progress w

  -- The progress of a host whose staged release was activated, and of one that was only drained.
  abbrev running : LbMembership → HostProgress
  running m = record { drained = some m; activated = true; reattached = false }

  abbrev waiting : LbMembership → HostProgress
  waiting m = record { drained = some m; activated = false; reattached = false }

  abbrev Runs : StagedArtifact → W → Type 0
  Runs staged w = release w ≡ (some staged, some staged)

  module _ (staged : StagedArtifact) (m : LbMembership)
      (held : Held shared entry membership release was before m) where
    note_reattached-Advanced :
        (w : W) (r : Result AdapterError Done × W)
        → shared.lb.reattach (host_ctx shared entry) entry.host m w ≡ r
        → Runs staged w
        → (v v' : W) (status : HealthStatus)
        → shared.health.check (host_ctx shared entry) entry.host v ≡ (ok status, v')
        → status.healthy ≡ true
        → Advanced (some staged) (note_reattached shared entry (running m) r)
    unfolding note_reattached
    note_reattached-Advanced w (ok done, w') eq runs v v' status checked healthy = (
      held,
      laws.reattaches m held.1 held.2 held.3 w w' eq ∙ held.0,
      sym (ap (λ x. release x.1) eq) ∙ laws.reattaching m w ∙ runs,
      (λ e. false≢true (ap is_none e)),
      v,
      v',
      status,
      checked,
      healthy,
    )
    note_reattached-Advanced w (err e, w') eq runs v v' status checked healthy = held

    judge_host-Advanced :
        (w w' : W) (status : HealthStatus)
        → shared.health.check (host_ctx shared entry) entry.host w ≡ (ok status, w')
        → Runs staged w'
        → (healthy : Bool) → status.healthy ≡ healthy
        → Advanced (some staged) (judge_host shared entry m (running m) status healthy w')
    unfolding judge_host
    judge_host-Advanced w w' status checked runs true healthy =
        note_reattached-Advanced w' (shared.lb.reattach (host_ctx shared entry) entry.host m w')
          refl runs w w' status checked healthy
    judge_host-Advanced w w' status checked runs false healthy = held

    after_check-Advanced :
        (w : W) (r : Result AdapterError HealthStatus × W)
        → shared.health.check (host_ctx shared entry) entry.host w ≡ r
        → Runs staged w
        → Advanced (some staged) (after_check shared entry m (running m) r)
    unfolding after_check
    after_check-Advanced w (ok status, w') eq runs =
        judge_host-Advanced w w' status eq (sym (ap (λ x. release x.1) eq) ∙ laws.checking w ∙ runs)
          status.healthy refl
    after_check-Advanced w (err e, w') eq runs = held

    after_restart-Advanced :
        (w : W) (r : Result AdapterError Done × W)
        → shared.service.restart (host_ctx shared entry) entry.host w ≡ r
        → (release w).0 ≡ some staged
        → Advanced (some staged) (after_restart shared entry m (running m) r)
    unfolding after_restart
    after_restart-Advanced w (ok done, w') eq active =
        after_check-Advanced w' (shared.health.check (host_ctx shared entry) entry.host w') refl
          (laws.restarts w w' eq ∙ ap (λ x. (x, x)) active)
    after_restart-Advanced w (err e, w') eq active = held

    after_activate-Advanced :
        (w : W) (r : Result AdapterError Done × W)
        → shared.artifact.activate (host_ctx shared entry) entry.host staged w ≡ r
        → release w ≡ before
        → Advanced (some staged) (after_activate shared entry m (waiting m) r)
    unfolding after_activate
    after_activate-Advanced w (ok done, w') eq kept =
        after_restart-Advanced w' (shared.service.restart (host_ctx shared entry) entry.host w')
          refl (ap (λ x. x.0) (laws.activates staged w w' eq))
    after_activate-Advanced w (err e, w') eq kept = (held, inr (w, w', staged, e, kept, eq, refl))

  activate_staged-Advanced :
      (m : LbMembership)
      → Held shared entry membership release was before m
      → (staged : Option StagedArtifact) (w : W) → release w ≡ before
      → Advanced staged (activate_staged shared entry m (waiting m) staged w)
  unfolding activate_staged
  activate_staged-Advanced m held none w kept = (held, inl kept)
  activate_staged-Advanced m held (some staged) w kept =
      after_activate-Advanced staged m held w
        (shared.artifact.activate (host_ctx shared entry) entry.host staged w) refl kept

  after_drain-Advanced :
      (staged : Option StagedArtifact) (w : W) (r : Result AdapterError LbMembership × W)
      → shared.lb.drain (host_ctx shared entry) entry.host w ≡ r
      → membership w ≡ was
      → release w ≡ before
      → Advanced staged (after_drain shared entry staged no_progress r)
  unfolding after_drain
  after_drain-Advanced staged w (ok m, w') eq pooled kept =
      activate_staged-Advanced m (laws.drains w w' m eq ∙ pooled, w, w', eq) staged w'
        (sym (ap (λ x. release x.1) eq) ∙ laws.draining w ∙ kept)
  after_drain-Advanced staged w (err e, w') eq pooled kept =
      (inr (w, e, pooled, eq), sym (ap (λ x. release x.1) eq) ∙ laws.draining w ∙ kept)

  -- An advance of a host records how far it got: as long as no drain is recorded, the active and the
  -- running release are as before, and the membership is too unless the drain itself failed, which then
  -- left the host as it is; once a drain is recorded, it is recorded with the membership from before; and
  -- until an activation is recorded, the two releases are as before unless the activation itself failed,
  -- which then left them as they are. If the advance succeeds, then the host has the membership from
  -- before, the staged release is active and runs, and a health check found it healthy. This is for
  -- adapters whose calls do what they are to do when they succeed, and of which those at the load balancer
  -- and the health check leave the releases.
  pub advance_host-Advanced :
      (staged : Map StagedArtifact) (w : W)
      → membership w ≡ was
      → release w ≡ before
      → Advanced (lookup entry.host staged) (advance_host shared entry staged (no_progress, w))
  unfolding advance_host
  advance_host-Advanced staged w pooled kept =
      after_drain-Advanced (lookup entry.host staged) w
        (shared.lb.drain (host_ctx shared entry) entry.host w) refl pooled kept

  pub Advanced-Marked :
      (staged : Option StagedArtifact) (r : Result SagaError Done × (HostProgress × W))
      → Advanced staged r
      → Marked shared entry membership release was before r.1.0 r.1.1
  Advanced-Marked staged (ok done, (progress, w)) advanced = advanced.0
  Advanced-Marked staged (err e, (progress, w)) marked = marked
