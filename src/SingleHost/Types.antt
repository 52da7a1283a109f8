-- ===== src/SingleHost/Types.antt =====
-- The state and the collaborators of a single-host deploy: single_host.rs. The file system's `is_dir`
-- and `str::trim` are parameters beside the adapters.
use fraisier_core.Common.{String, Bool, Option, none, some, List, [], Result}
use fraisier_core.Saga.Types.{SagaError}
use fraisier_core.Gate.Admit.{PolicyGate}
use fraisier_core.BlueGreen.Types.{Act}
use fraisier_core.Adapters.Errors.{AdapterError, show}
use fraisier_core.Adapters.Context.{Revision, HostId, StagedArtifact, AdapterCtx, Env}
use fraisier_core.Adapters.Axes.{MigrationAxis, ArtifactAdapter, ServiceAdapter, HealthAdapter}
use fraisier_core.SingleHost.Rehearsal.{BackupSource, RehearsalDb}

pub record DeployRecord : Type 0 where
  pub active : Option StagedArtifact
  pub revision : Option Revision

-- `DeployRecord::default`
abbrev pub no_record : DeployRecord
no_record = record { active = none; revision = none }

-- The collaborators and the settings of `struct SingleHostDeploy`. A readiness probe is asked with the
-- live DSN.
pub record SingleHostDeploy (W : Type 0) : Type 0 where
  pub fraise : String
  pub environment : String
  pub host : HostId
  pub ctx : AdapterCtx
  pub target : Option Revision
  pub rollback_to : Option Revision
  pub forward_compatible_lint : Bool
  pub policy : PolicyGate W
  pub restore_rehearsal : Option (RehearsalDb W)
  pub backup_source : BackupSource
  pub database_readiness : Option (String → W → Result String (List String) × W)
  pub artifact : ArtifactAdapter W
  pub migration : MigrationAxis W
  pub service : ServiceAdapter W
  pub health : HealthAdapter W
  pub env : Env
  pub is_dir : String → W → Bool
  pub trim : String → String

-- `struct DeployShared`: the deploy, with the context that its steps use, and the release to go back to.
pub record DeployShared (W : Type 0) : Type 0 where
  pub deploy : SingleHostDeploy W
  pub prior : DeployRecord

-- `DeployShared::new`, its context.
abbrev pub shared_ctx : {W : Type 0} → SingleHostDeploy W → AdapterCtx
shared_ctx deploy = record (deploy.ctx) { host = some deploy.host }

pub record DeployRuntime : Type 0 where
  pub staged : Option StagedArtifact
  pub previous_revision : Option Revision
  pub new_revision : Option Revision
  pub warnings : List String

-- `DeployRuntime::default`
abbrev pub no_runtime : DeployRuntime
no_runtime = record { staged = none; previous_revision = none; new_revision = none; warnings = [] }

abbrev pub committed_record : DeployRuntime → DeployRecord
committed_record runtime = record { active = runtime.staged; revision = runtime.new_revision }

-- `DeployShared::failed`
abbrev pub failed : String → AdapterError → SagaError
failed step error = SagaError.step_failed step (show error)

-- A step that leaves the run state alone.
abbrev pub on_world : {W A : Type 0} → Act W A → Act (DeployRuntime × W) A
on_world act (runtime, w) = let (r, w') = act w in (r, (runtime, w'))
