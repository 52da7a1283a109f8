-- ===== src/MultiHost/Host.antt =====
-- How one host is advanced and restored: multi_host.rs, one function for what follows each call of an
-- adapter. A host's `address` travels in the context's settings, which are left out.
use fraisier_core.Common.{
  ℕ, String, Bool, true, false, Option, none, some, [], ◌∷◌, format, Result, ok, err, Done,
}
use fraisier_core.Common.Map.{Map, lookup}
use fraisier_core.Saga.Types.{SagaError}
use fraisier_core.Adapters.Errors.{AdapterError, show}
use fraisier_core.Adapters.Context.{HostId, StagedArtifact, AdapterCtx}
use fraisier_core.Adapters.Axes.{ArtifactAdapter, ServiceAdapter, HealthStatus, HealthAdapter}
use fraisier_core.MultiHost.Batches.{HostEntry}

pub data LbState : Type 0 where
  in_pool : LbState
  draining : LbState
  removed : LbState

pub record LbMembership : Type 0 where
  pub state : LbState
  pub weight : Option ℕ

pub record LbAdapter (W : Type 0) : Type 0 where
  pub drain : AdapterCtx → HostId → W → Result AdapterError LbMembership × W
  pub reattach : AdapterCtx → HostId → LbMembership → W → Result AdapterError Done × W

pub record HostProgress : Type 0 where
  pub drained : Option LbMembership
  pub activated : Bool
  pub reattached : Bool

-- `HostProgress::default`
abbrev pub no_progress : HostProgress
no_progress = record { drained = none; activated = false; reattached = false }

-- What `struct RolloutShared` gives a host: the context, the adapters and the releases to go back to.
pub record RolloutShared (W : Type 0) : Type 0 where
  pub ctx : AdapterCtx
  pub artifact : ArtifactAdapter W
  pub service : ServiceAdapter W
  pub health : HealthAdapter W
  pub lb : LbAdapter W
  pub prior_active : Map StagedArtifact

-- `unwrap_or_default`
abbrev pub or_default : Option HostProgress → HostProgress
or_default none = no_progress
or_default (some progress) = progress

abbrev pub host_failed : HostId → String → AdapterError → SagaError
host_failed host operation error =
    SagaError.step_failed "rollout"
      (format ("host " ∷ host ∷ " " ∷ operation ∷ ": " ∷ show error ∷ []))

abbrev show_detail : Option String → String
show_detail none = ""
show_detail (some detail) = format (": " ∷ detail ∷ [])

module _ {W : Type 0} (shared : RolloutShared W) (entry : HostEntry) where
  abbrev pub host_ctx : AdapterCtx
  host_ctx = record (shared.ctx) { host = some entry.host }

  -- What follows `reattach`.
  unfoldable pub note_reattached :
      HostProgress → Result AdapterError Done × W → Result SagaError Done × (HostProgress × W)
  note_reattached progress (ok done, w) = (ok tt, (record progress { reattached = true }, w))
  note_reattached progress (err e, w) = (err (host_failed entry.host "reattach" e), (progress, w))

  unfoldable pub judge_host :
      LbMembership
      → HostProgress
      → HealthStatus
      → Bool
      → W
      → Result SagaError Done × (HostProgress × W)
  judge_host membership progress status true w =
      note_reattached progress (shared.lb.reattach host_ctx entry.host membership w)
  judge_host membership progress status false w = (
    err (
        SagaError.step_failed "rollout" (
          format (
            "host "
            ∷ entry.host
            ∷ " reported unhealthy after restart"
            ∷ show_detail status.detail
            ∷ []))),
    (progress, w),
  )

  -- What follows `check`.
  unfoldable pub after_check :
      LbMembership
      → HostProgress
      → Result AdapterError HealthStatus × W
      → Result SagaError Done × (HostProgress × W)
  after_check membership progress (ok status, w) =
      judge_host membership progress status status.healthy w
  after_check membership progress (err e, w) =
      (err (host_failed entry.host "health" e), (progress, w))

  -- What follows `restart`.
  unfoldable pub after_restart :
      LbMembership
      → HostProgress
      → Result AdapterError Done × W
      → Result SagaError Done × (HostProgress × W)
  after_restart membership progress (ok done, w) =
      after_check membership progress (shared.health.check host_ctx entry.host w)
  after_restart membership progress (err e, w) =
      (err (host_failed entry.host "restart" e), (progress, w))

  -- What follows `activate`.
  unfoldable pub after_activate :
      LbMembership
      → HostProgress
      → Result AdapterError Done × W
      → Result SagaError Done × (HostProgress × W)
  after_activate membership progress (ok done, w) =
      after_restart membership (record progress { activated = true })
        (shared.service.restart host_ctx entry.host w)
  after_activate membership progress (err e, w) =
      (err (host_failed entry.host "activate" e), (progress, w))

  unfoldable pub activate_staged :
      LbMembership
      → HostProgress
      → Option StagedArtifact
      → W
      → Result SagaError Done × (HostProgress × W)
  activate_staged membership progress none w = (
    err (
        SagaError.step_failed "rollout"
          (format ("no staged artifact recorded for host " ∷ entry.host ∷ []))),
    (progress, w),
  )
  activate_staged membership progress (some staged) w =
      after_activate membership progress (shared.artifact.activate host_ctx entry.host staged w)

  -- What follows `drain`.
  unfoldable pub after_drain :
      Option StagedArtifact
      → HostProgress
      → Result AdapterError LbMembership × W
      → Result SagaError Done × (HostProgress × W)
  after_drain staged progress (ok membership, w) =
      activate_staged membership (record progress { drained = some membership }) staged w
  after_drain staged progress (err e, w) = (err (host_failed entry.host "drain" e), (progress, w))

  unfoldable pub advance_host :
      Map StagedArtifact → HostProgress × W → Result SagaError Done × (HostProgress × W)
  advance_host staged (progress, w) =
      after_drain (lookup entry.host staged) progress (shared.lb.drain host_ctx entry.host w)

  -- `map_err` on the last call of a restore.
  unfoldable pub finish_restore : Result AdapterError Done × W → Result SagaError Done × W
  finish_restore (ok done, w) = (ok tt, w)
  finish_restore (err e, w) = (err (host_failed entry.host "rollback reattach" e), w)

  abbrev pub reattach_prior : LbMembership → W → Result SagaError Done × W
  reattach_prior membership w = finish_restore (shared.lb.reattach host_ctx entry.host membership w)

  -- What follows `restart` in a restore.
  unfoldable pub restarted_prior :
      LbMembership → Result AdapterError Done × W → Result SagaError Done × W
  restarted_prior membership (ok done, w) = reattach_prior membership w
  restarted_prior membership (err e, w) = (err (host_failed entry.host "rollback restart" e), w)

  -- What follows `activate` in a restore.
  unfoldable pub activated_prior :
      LbMembership → Result AdapterError Done × W → Result SagaError Done × W
  activated_prior membership (ok done, w) =
      restarted_prior membership (shared.service.restart host_ctx entry.host w)
  activated_prior membership (err e, w) = (err (host_failed entry.host "rollback activate" e), w)

  unfoldable pub activate_prior :
      LbMembership → Option StagedArtifact → W → Result SagaError Done × W
  activate_prior membership none w = (
    err (
        SagaError.step_failed "rollout" (
          format (
            "cannot restore host " ∷ entry.host
            ∷ ": no prior artifact is recorded (a failed first-ever deploy has no prior release to re-activate)"
            ∷ []))),
    w,
  )
  activate_prior membership (some prior) w =
      activated_prior membership (shared.artifact.activate host_ctx entry.host prior w)

  -- `if progress.activated`
  unfoldable pub restore_release : LbMembership → Bool → W → Result SagaError Done × W
  restore_release membership true w =
      activate_prior membership (lookup entry.host shared.prior_active) w
  restore_release membership false w = reattach_prior membership w

  -- What follows `drain` in a restore.
  unfoldable pub drained_again :
      LbMembership → Bool → Result AdapterError LbMembership × W → Result SagaError Done × W
  drained_again membership activated (ok again, w) = restore_release membership activated w
  drained_again membership activated (err e, w) =
      (err (host_failed entry.host "rollback drain" e), w)

  -- `if progress.reattached`
  unfoldable pub take_out :
      LbMembership → (activated reattached : Bool) → W → Result SagaError Done × W
  take_out membership activated true w =
      drained_again membership activated (shared.lb.drain host_ctx entry.host w)
  take_out membership activated false w = restore_release membership activated w

  unfoldable pub restore_from : HostProgress → Option LbMembership → W → Result SagaError Done × W
  restore_from progress none w = (ok tt, w)
  restore_from progress (some membership) w =
      take_out membership progress.activated progress.reattached w

  unfoldable pub restore_host : Map HostProgress → W → Result SagaError Done × W
  restore_host progresses w =
      let progress = or_default (lookup entry.host progresses) in
      restore_from progress progress.drained w
