-- ===== src/MultiHost/Returned.antt =====
-- What restoring one host comes to: multi_host.rs.
use fraisier_core.Common.{
  ◌≡◌, refl, sym, ◌∙◌, ap, subst, Bool, true, false, Option, none, some, Result, ok, err, Done, inl,
}
use fraisier_core.Common.Map.{Map, lookup}
use fraisier_core.Saga.Types.{SagaError}
use fraisier_core.Adapters.Errors.{AdapterError}
use fraisier_core.Adapters.Context.{StagedArtifact}
use fraisier_core.MultiHost.Batches.{HostEntry}
use fraisier_core.MultiHost.Host.{
  LbMembership, HostProgress, no_progress, RolloutShared, host_ctx, advance_host, finish_restore,
  reattach_prior, restarted_prior, activated_prior, activate_prior, restore_release, drained_again,
  take_out, restore_from, restore_host, or_default,
}
use fraisier_core.MultiHost.Advanced.{Advanced-Marked, advance_host-Advanced}
use fraisier_core.MultiHost.Contract.{
  Release, IsHost, Pooled, Kept, Held, Kept-same, Reached, Marked, Broken,
}

module _ {W : Type 0} (shared : RolloutShared W) (entry : HostEntry) (membership : W → LbMembership)
    (release : W → Release) (laws : IsHost shared entry membership release) (was : LbMembership)
    (before : Release) where
  abbrev Stays : W → Type 0
  Stays = Kept shared entry membership release was before

  -- How a restore ends. One that fails met a failing call, or an activated release without a prior one.
  abbrev pub Returned : (activated : Bool) → Result SagaError Done × W → Type 0
  Returned activated (ok done, w) = Pooled shared entry membership release was before w × Stays w
  Returned activated (err e, w) = Broken shared entry activated e w

  abbrev Is : Option LbMembership → Bool → W → Type 0
  Is = Reached shared entry membership release was before

  module _ (m : LbMembership) (held : Held shared entry membership release was before m) where
    finish_restore-Returned :
        (activated : Bool) (w : W) (r : Result AdapterError Done × W)
        → shared.lb.reattach (host_ctx shared entry) entry.host m w ≡ r
        → Stays w
        → Returned activated (finish_restore shared entry r)
    unfolding finish_restore
    finish_restore-Returned activated w (ok done, w') eq kept = (
      inl (laws.reattaches m held.1 held.2 held.3 w w' eq ∙ held.0),
      Kept-same shared entry membership release was before w w'
          (sym (ap (λ x. release x.1) eq) ∙ laws.reattaching m w) kept,
    )
    finish_restore-Returned activated w (err e, w') eq kept =
        Broken.reattach_broke m (w, e, eq, refl)

    reattach_prior-Returned :
        (activated : Bool) (w : W) → Stays w → Returned activated (reattach_prior shared entry m w)
    reattach_prior-Returned activated w kept =
        finish_restore-Returned activated w
          (shared.lb.reattach (host_ctx shared entry) entry.host m w) refl kept

    restarted_prior-Returned :
        (w : W) (r : Result AdapterError Done × W)
        → shared.service.restart (host_ctx shared entry) entry.host w ≡ r
        → ((release w).0, (release w).0) ≡ before
        → Returned true (restarted_prior shared entry m r)
    unfolding restarted_prior
    restarted_prior-Returned w (ok done, w') eq kept =
        reattach_prior-Returned true w' (inl (laws.restarts w w' eq ∙ kept))
    restarted_prior-Returned w (err e, w') eq kept = Broken.restart_broke (w, e, eq, refl)

    activated_prior-Returned :
        (prior : StagedArtifact)
        → before ≡ (some prior, some prior)
        → (w : W) (r : Result AdapterError Done × W)
        → shared.artifact.activate (host_ctx shared entry) entry.host prior w ≡ r
        → Returned true (activated_prior shared entry m r)
    unfolding activated_prior
    activated_prior-Returned prior ran w (ok done, w') eq =
        restarted_prior-Returned w' (shared.service.restart (host_ctx shared entry) entry.host w')
          refl (ap (λ x. (x.0, x.0)) (laws.activates prior w w' eq) ∙ sym ran)
    activated_prior-Returned prior ran w (err e, w') eq =
        Broken.activate_broke prior (w, e, eq, refl)

    activate_prior-Returned :
        (prior : Option StagedArtifact)
        → lookup entry.host shared.prior_active ≡ prior
        → before ≡ (prior, prior)
        → (w : W) → Returned true (activate_prior shared entry m prior w)
    unfolding activate_prior
    activate_prior-Returned none found ran w = Broken.no_prior found refl
    activate_prior-Returned (some prior) found ran w =
        activated_prior-Returned prior ran w
          (shared.artifact.activate (host_ctx shared entry) entry.host prior w) refl

  -- The release that was active and ran is the one that the restore goes back to.
  module _
      (ran : before
        ≡ (lookup entry.host shared.prior_active, lookup entry.host shared.prior_active)) where
    abbrev prior : Option StagedArtifact
    prior = lookup entry.host shared.prior_active

    restore_release-Returned :
        (m : LbMembership) (activated : Bool) (w : W)
        → Is (some m) activated w
        → Returned activated (restore_release shared entry m activated w)
    unfolding restore_release
    restore_release-Returned m true w held = activate_prior-Returned m held prior refl ran w
    restore_release-Returned m false w reached =
        reattach_prior-Returned m reached.0 false w reached.1

    -- What drains a host leaves its release.
    Reached-drained :
        (m : LbMembership) (activated : Bool) (w : W) (r : Result AdapterError LbMembership × W)
        → shared.lb.drain (host_ctx shared entry) entry.host w ≡ r
        → Is (some m) activated w
        → Is (some m) activated r.1
    Reached-drained m true w r eq held = held
    Reached-drained m false w r eq reached = (
      reached.0,
      Kept-same shared entry membership release was before w r.1
          (sym (ap (λ x. release x.1) eq) ∙ laws.draining w) reached.1,
    )

    drained_again-Returned :
        (m : LbMembership) (activated : Bool) (w : W) (r : Result AdapterError LbMembership × W)
        → shared.lb.drain (host_ctx shared entry) entry.host w ≡ r
        → Is (some m) activated w
        → Returned activated (drained_again shared entry m activated r)
    unfolding drained_again
    drained_again-Returned m activated w (ok again, w') eq reached =
        restore_release-Returned m activated w'
          (Reached-drained m activated w (ok again, w') eq reached)
    drained_again-Returned m activated w (err e, w') eq reached =
        Broken.drain_broke (w, e, eq, refl)

    take_out-Returned :
        (m : LbMembership) (activated reattached : Bool) (w : W)
        → Is (some m) activated w
        → Returned activated (take_out shared entry m activated reattached w)
    unfolding take_out
    take_out-Returned m activated true w reached =
        drained_again-Returned m activated w (shared.lb.drain (host_ctx shared entry) entry.host w)
          refl reached
    take_out-Returned m activated false w reached = restore_release-Returned m activated w reached

    restore_from-Returned :
        (progress : HostProgress) (drained : Option LbMembership) (w : W)
        → Is drained progress.activated w
        → Returned progress.activated (restore_from shared entry progress drained w)
    unfolding restore_from
    restore_from-Returned progress none w reached = (reached.0, inl reached.1)
    restore_from-Returned progress (some m) w reached =
        take_out-Returned m progress.activated progress.reattached w reached

    pub restore_host-Returned :
        (progresses : Map HostProgress) (progress : HostProgress)
        → lookup entry.host progresses ≡ some progress
        → (w : W) → Marked shared entry membership release was before progress w
        → Returned progress.activated (restore_host shared entry progresses w)
    unfolding restore_host
    restore_host-Returned progresses progress found w marked =
        subst
          (λ o.
            Returned progress.activated
              (restore_from shared entry (or_default o) (or_default o).drained w))
          (sym found) (restore_from-Returned progress progress.drained w marked)

module _ {W : Type 0} (shared : RolloutShared W) (entry : HostEntry) (membership : W → LbMembership)
    (release : W → Release) (laws : IsHost shared entry membership release) where
  -- However far an advance of a host got, whose prior release was active and ran, a restore from where the
  -- advance left the host and by the progress that it recorded either succeeds or fails because a call of
  -- the adapters failed, which it reports with the host and the operation and which left the host as it
  -- is, or because a release was activated and no prior one is recorded. If it succeeds,
  -- then the host has the membership that it had before the advance, or it has what a drain that failed
  -- left of it; and the active and the running release are those from before the advance, or what an
  -- activation that failed left of them. This is for adapters whose calls do what they are to do when they
  -- succeed, and of which those at the load balancer and the health check leave the releases.
  pub restore_host-advance_host :
      (staged : Map StagedArtifact) (w : W)
      → release w ≡ (lookup entry.host shared.prior_active, lookup entry.host shared.prior_active)
      → (progresses : Map HostProgress)
      → lookup entry.host progresses ≡ some (advance_host shared entry staged (no_progress, w)).1.0
      → Returned shared entry membership release laws
          (membership w)
          (release w)
          (advance_host shared entry staged (no_progress, w)).1.0.activated
          (restore_host shared entry progresses
            (advance_host shared entry staged (no_progress, w)).1.1)
  restore_host-advance_host staged w ran progresses recorded =
      let advanced = advance_host shared entry staged (no_progress, w) in
      restore_host-Returned shared entry membership release laws (membership w) (release w) ran
        progresses advanced.1.0 recorded advanced.1.1
        (Advanced-Marked shared entry membership release laws (membership w) (release w)
          (lookup entry.host staged) advanced
          (advance_host-Advanced shared entry membership release laws (membership w) (release w)
            staged w refl refl))
