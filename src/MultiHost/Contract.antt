-- ===== src/MultiHost/Contract.antt =====
-- The contract of the adapters that advance and restore one host, multi_host.rs and the traits of
-- adapter_axes.rs.
use fraisier_core.Common.{
  ◌≡◌, ◌∙◌, ◌⊎◌, inl, inr, Bool, true, false, String, Option, none, some, Result, ok, err,
}
use fraisier_core.Common.Map.{lookup}
use fraisier_core.Saga.Types.{SagaError}
use fraisier_core.Adapters.Errors.{AdapterError}
use fraisier_core.Adapters.Context.{StagedArtifact}
use fraisier_core.Gate.Quiet.{Keeps}
use fraisier_core.MultiHost.Batches.{HostEntry}
use fraisier_core.MultiHost.Host.{LbMembership, HostProgress, RolloutShared, host_ctx, host_failed}

-- The active release of a host, and the one that runs.
abbrev pub Release : Type 0
Release = Option StagedArtifact × Option StagedArtifact

module _ {W : Type 0} (shared : RolloutShared W) (entry : HostEntry) (membership : W → LbMembership)
    (release : W → Release) where
  -- What the calls do on the host that succeed: a drain returns the membership, a reattach restores one
  -- that a drain returned, an activation and a restart put a release in place. The calls at the load
  -- balancer and the health check leave the releases. Of a call that fails nothing else is asked.
  pub record IsHost : Type 0 where
    pub drains :
        (w w' : W) (m : LbMembership)
        → shared.lb.drain (host_ctx shared entry) entry.host w ≡ (ok m, w')
        → m ≡ membership w
    pub draining : Keeps release (shared.lb.drain (host_ctx shared entry) entry.host)
    pub reattaches :
        (m : LbMembership) (v v' : W)
        → shared.lb.drain (host_ctx shared entry) entry.host v ≡ (ok m, v')
        → (w w' : W) → shared.lb.reattach (host_ctx shared entry) entry.host m w ≡ (ok tt, w')
        → membership w' ≡ m
    pub reattaching :
        (m : LbMembership) → Keeps release (shared.lb.reattach (host_ctx shared entry) entry.host m)
    pub activates :
        (staged : StagedArtifact) (w w' : W)
        → shared.artifact.activate (host_ctx shared entry) entry.host staged w ≡ (ok tt, w')
        → release w' ≡ (some staged, (release w).1)
    pub restarts :
        (w w' : W)
        → shared.service.restart (host_ctx shared entry) entry.host w ≡ (ok tt, w')
        → release w' ≡ ((release w).0, (release w).0)
    pub checking : Keeps release (shared.health.check (host_ctx shared entry) entry.host)

  module _ (was : LbMembership) (before : Release) where
    -- The host's membership is as before, or its drain failed and left it so.
    abbrev pub Pooled : W → Type 0
    Pooled w =
        (membership w ≡ was)
        ⊎ ((v : W) × (x : AdapterError) × (membership v ≡ was)
            × (shared.lb.drain (host_ctx shared entry) entry.host v ≡ (err x, w)))

    -- The host's releases are as before, or an activation failed and left them so.
    abbrev pub Kept : W → Type 0
    Kept w =
        (release w ≡ before)
        ⊎ ((v v' : W) × (staged : StagedArtifact) × (x : AdapterError) × (release v ≡ before)
            × (shared.artifact.activate (host_ctx shared entry) entry.host staged v ≡ (err x, v'))
            × (release w ≡ release v'))

    -- The membership is the one from before, which a drain returned.
    abbrev pub Held : LbMembership → Type 0
    Held m =
        (m ≡ was) × (v v' : W) × (shared.lb.drain (host_ctx shared entry) entry.host v ≡ (ok m, v'))

    pub Kept-same : (w w' : W) → release w' ≡ release w → Kept w → Kept w'
    Kept-same w w' same (inl kept) = inl (same ∙ kept)
    Kept-same w w' same (inr (v, v', staged, x, kept, failed, left)) =
        inr (v, v', staged, x, kept, failed, same ∙ left)

    -- What is true of a host that got as far as its progress says.
    abbrev pub Reached : Option LbMembership → (activated : Bool) → W → Type 0
    Reached none activated w = Pooled w × (release w ≡ before)
    Reached (some m) false w = Held m × Kept w
    Reached (some m) true w = Held m

    abbrev pub Marked : HostProgress → W → Type 0
    Marked progress w = Reached progress.drained progress.activated w

module _ {W : Type 0} (shared : RolloutShared W) (entry : HostEntry) where
  -- A call that failed and left this world, reported with the host and the operation.
  abbrev pub Failed :
      {A : Type 0} → (W → Result AdapterError A × W) → String → SagaError → W → Type 0
  Failed act operation error w =
      (v : W) × (x : AdapterError) × (act v ≡ (err x, w))
      × (error ≡ host_failed entry.host operation x)

  -- Why a restore ended at this world with this error: its last call failed, or there is no prior release
  -- for an activated one.
  pub data Broken (activated : Bool) (error : SagaError) (w : W) : Type 0 where
    drain_broke :
        Failed (shared.lb.drain (host_ctx shared entry) entry.host) "rollback drain" error w
        → Broken activated error w
    reattach_broke :
        (m : LbMembership)
        → Failed
            (shared.lb.reattach (host_ctx shared entry) entry.host m)
            "rollback reattach"
            error
            w
        → Broken activated error w
    activate_broke :
        (staged : StagedArtifact)
        → Failed
            (shared.artifact.activate (host_ctx shared entry) entry.host staged)
            "rollback activate"
            error
            w
        → Broken activated error w
    restart_broke :
        Failed
          (shared.service.restart (host_ctx shared entry) entry.host)
          "rollback restart"
          error
          w
        → Broken activated error w
    no_prior :
        lookup entry.host shared.prior_active ≡ none → activated ≡ true → Broken activated error w
