-- ===== src/SingleHost/Contract.antt =====
-- The contract of the collaborators of a single-host deploy, single_host.rs and the traits of
-- adapter_axes.rs: what they do to the live database's revision, to the release that is active on the
-- host and to the release that its service runs.
use fraisier_core.Common.{◌≡◌, ◌⊎◌, none, String, true, false, Option, some, List, Result, ok, err}
use fraisier_core.Gate.Decision.{ApprovalRequest, ApprovalVerdict}
use fraisier_core.Gate.Quiet.{Keeps}
use fraisier_core.Adapters.Errors.{AdapterError}
use fraisier_core.Adapters.Context.{Revision, StagedArtifact, AdapterCtx, secret}
use fraisier_core.Adapters.Axes.{MigrationOutcome}
use fraisier_core.SingleHost.Rehearsal.{database_url_secret, BackupSource, ThrowawayDb, RehearsalDb}
use fraisier_core.SingleHost.Types.{SingleHostDeploy, shared_ctx}

-- The revision of the live database, the active release, and the one that runs.
abbrev pub Seen : Type 0
Seen = Option Revision × (Option StagedArtifact × Option StagedArtifact)

module _ {W : Type 0} (deploy : SingleHostDeploy W) (seen : W → Seen) where
  abbrev pub schema : W → Option Revision
  schema w = (seen w).0

  abbrev pub live : W → Option StagedArtifact
  live w = (seen w).1.0

  abbrev pub serving : W → Option StagedArtifact
  serving w = (seen w).1.1

  -- The context names the database of the deploy's own context.
  abbrev pub Reaches : AdapterCtx → Type 0
  Reaches ctx =
      secret deploy.env database_url_secret ctx
      ≡ secret deploy.env database_url_secret (shared_ctx deploy)

  -- The revision is as it was, or a migration that failed left it so.
  abbrev pub SchemaBack : (was : Option Revision) → Option Revision → Type 0
  SchemaBack was r =
      (r ≡ was)
      ⊎ ((ctx : AdapterCtx) × (v v' : W) × (x : AdapterError) × (schema v ≡ was)
          × (((target : Option Revision) × (deploy.migration.up ctx target v ≡ (err x, v')))
              ⊎ ((target : Revision) × (deploy.migration.down_to ctx target v ≡ (err x, v'))))
          × (r ≡ schema v'))

  -- The active release is as it was, or an activation that failed left it so.
  abbrev pub LiveBack : (was : Option StagedArtifact) → Option StagedArtifact → Type 0
  LiveBack was r =
      (r ≡ was)
      ⊎ ((staged : StagedArtifact) × (v v' : W) × (x : AdapterError) × (live v ≡ was)
          × (deploy.artifact.activate (shared_ctx deploy) deploy.host staged v ≡ (err x, v'))
          × (r ≡ live v'))

  -- The active release is as it was or as a failed activation left it, and the one that was active runs.
  abbrev pub ReleasesBack :
      (was : Option StagedArtifact) → Option StagedArtifact × Option StagedArtifact → Type 0
  ReleasesBack was releases = LiveBack was releases.0 × (releases.1 ≡ was)

  -- A call may fail or succeed, and changes none of the three.
  pub record IsQuiet : Type 0 where
    pub describing : Keeps seen deploy.migration.describe
    pub linting : (ctx : AdapterCtx) → Keeps seen (deploy.migration.preflight ctx)
    pub reading : (ctx : AdapterCtx) → Keeps seen (deploy.migration.current_revision ctx)
    pub verifying : (ctx : AdapterCtx) → Keeps seen (deploy.migration.verify ctx)
    pub checking : (ctx : AdapterCtx) → Keeps seen (deploy.health.check ctx deploy.host)
    pub staging : (ctx : AdapterCtx) → Keeps seen (deploy.artifact.stage ctx deploy.host)
    pub probing :
        (probe : String → W → Result String (List String) × W)
        → deploy.database_readiness ≡ some probe
        → (dsn : String) → Keeps seen (probe dsn)
    pub asking :
        (hook : ApprovalRequest → W → ApprovalVerdict × W)
        → (deploy.policy).hook ≡ some hook
        → (request : ApprovalRequest) → Keeps seen (hook request)
    pub provisioning :
        (db : RehearsalDb W)
        → deploy.restore_rehearsal ≡ some db
        → (dsn : String) (backup : BackupSource) → Keeps seen (db.provision dsn backup)
    pub dropping :
        (db : RehearsalDb W)
        → deploy.restore_rehearsal ≡ some db
        → (throwaway : ThrowawayDb) → Keeps seen (db.teardown throwaway)
    -- Migrating the throwaway database that was made from the live one leaves the live one.
    pub isolated :
        (db : RehearsalDb W)
        → deploy.restore_rehearsal ≡ some db
        → (dsn : String) (backup : BackupSource) (w w' : W) (throwaway : ThrowawayDb)
        → secret deploy.env database_url_secret (shared_ctx deploy) ≡ ok dsn
        → db.provision dsn backup w ≡ (ok throwaway, w')
        → (ctx : AdapterCtx) → secret deploy.env database_url_secret ctx ≡ ok throwaway.dsn
        → (target : Option Revision) → Keeps seen (deploy.migration.up ctx target)

  -- What the calls do that are to change something. A call that fails leaves what another axis owns, and
  -- may leave anything of its own: a migration the revision, an activation the active release, a restart
  -- the release that runs.
  pub record IsHost : Type 0 where
    pub quiet : IsQuiet
    pub reads :
        (ctx : AdapterCtx)
        → Reaches ctx
        → (w w' : W) (r : Option Revision) → deploy.migration.current_revision ctx w ≡ (ok r, w')
        → r ≡ schema w
    pub up_releases :
        (ctx : AdapterCtx) (target : Option Revision)
        → Keeps (λ w. (seen w).1) (deploy.migration.up ctx target)
    pub down_releases :
        (ctx : AdapterCtx) (target : Revision)
        → Keeps (λ w. (seen w).1) (deploy.migration.down_to ctx target)
    -- `MigrationOutcome::to` is the revision after the call, if any, and applying migrations leaves a
    -- revision where there was one.
    pub reports :
        deploy.migration.owns_database ≡ true
        → (ctx : AdapterCtx) → Reaches ctx
        → (target : Option Revision) (w w' : W) (outcome : MigrationOutcome)
        → deploy.migration.up ctx target w ≡ (ok outcome, w')
        → outcome.to ≡ schema w'
    pub applies :
        deploy.migration.owns_database ≡ true
        → (ctx : AdapterCtx) → Reaches ctx
        → (target : Option Revision) (w w' : W) (outcome : MigrationOutcome)
        → deploy.migration.up ctx target w ≡ (ok outcome, w')
        → schema w' ≡ none
        → schema w ≡ none
    pub ups_to :
        deploy.migration.owns_database ≡ true
        → (ctx : AdapterCtx) → Reaches ctx
        → (target : Revision) (w w' : W) (outcome : MigrationOutcome)
        → deploy.migration.up ctx (some target) w ≡ (ok outcome, w')
        → schema w' ≡ some target
    pub downs :
        deploy.migration.owns_database ≡ true
        → (ctx : AdapterCtx) → Reaches ctx
        → (target : Revision) (w w' : W) (outcome : MigrationOutcome)
        → deploy.migration.down_to ctx target w ≡ (ok outcome, w')
        → schema w' ≡ some target
    -- Without a database there is no revision to change.
    pub up_nowhere :
        deploy.migration.owns_database ≡ false
        → (ctx : AdapterCtx) (target : Option Revision)
        → Keeps schema (deploy.migration.up ctx target)
    pub down_nowhere :
        deploy.migration.owns_database ≡ false
        → (ctx : AdapterCtx) (target : Revision)
        → Keeps schema (deploy.migration.down_to ctx target)
    pub activates :
        (ctx : AdapterCtx) (staged : StagedArtifact) (w w' : W)
        → deploy.artifact.activate ctx deploy.host staged w ≡ (ok tt, w')
        → seen w' ≡ (schema w, (some staged, serving w))
    pub activating :
        (ctx : AdapterCtx) (staged : StagedArtifact)
        → Keeps {O = Option Revision × Option StagedArtifact}
            (λ w. (schema w, serving w))
            (deploy.artifact.activate ctx deploy.host staged)
    pub restarts :
        (ctx : AdapterCtx) (w w' : W)
        → deploy.service.restart ctx deploy.host w ≡ (ok tt, w')
        → seen w' ≡ (schema w, (live w, live w))
    pub restart_fails :
        (ctx : AdapterCtx) (w w' : W) (x : AdapterError)
        → deploy.service.restart ctx deploy.host w ≡ (err x, w')
        → (schema w' ≡ schema w) × (live w' ≡ live w)
