-- ===== src/SingleHost/Rehearsal.antt =====
-- The restore rehearsal: crates/fraisier-core/src/restore_rehearsal.rs. The throwaway database is
-- provided by a parameter.
use fraisier_core.Common.{
  String, Bool, true, false, Option, none, some, List, format, [], ◌∷◌, Result, ok, err, Done,
}
use fraisier_core.Common.Map.{contains}
use fraisier_core.Gate.Admit.{AdapterDescription}
use fraisier_core.Adapters.Errors.{AdapterError, show}
use fraisier_core.Adapters.Context.{Revision, AdapterCtx, with_resolved_secret, Env, secret}
use fraisier_core.Adapters.Axes.{MigrationAxis, MigrationOutcome}

abbrev pub database_url_secret : String
database_url_secret = "DATABASE_URL"

abbrev pub against_database_url_secret : String
against_database_url_secret = "AGAINST_DATABASE_URL"

abbrev pub deep_classification : String
deep_classification = "deep_classification"

pub data BackupSource : Type 0 where
  fresh_dump : BackupSource
  archive : (path : String) → BackupSource

-- `backup == BackupSource::FreshDump`
abbrev pub is_fresh_dump : BackupSource → Bool
is_fresh_dump BackupSource.fresh_dump = true
is_fresh_dump (BackupSource.archive path) = false

pub record ThrowawayDb : Type 0 where
  pub dsn : String
  pub name : String
  pub live : String

pub record RehearsalReport : Type 0 where
  pub applied : List Revision
  pub teardown_warning : Option String

pub data RehearsalError : Type 0 where
  secret_failed : AdapterError → RehearsalError
  provision_failed : String → RehearsalError
  migrate_failed : AdapterError → RehearsalError

-- The display of a `RehearsalError`.
unfoldable pub show_rehearsal : RehearsalError → String
show_rehearsal (RehearsalError.secret_failed error) =
    format ("restore-rehearsal could not resolve the database DSN: " ∷ show error ∷ [])
show_rehearsal (RehearsalError.provision_failed error) =
    format ("restore-rehearsal could not provision the throwaway database: " ∷ error ∷ [])
show_rehearsal (RehearsalError.migrate_failed error) =
    format ("restore-rehearsal migration failed on the throwaway database: " ∷ show error ∷ [])

-- `RehearsalError::remedy`
abbrev pub remedy : RehearsalError → String
remedy (RehearsalError.migrate_failed error) =
    "The pending migrations did not apply cleanly on a fresh restore. Fix the migrations"
remedy (RehearsalError.provision_failed error) =
    "The pending migrations were not rehearsed: the throwaway copy could not be created or seeded. If the database role may not create databases, grant it CREATEDB or name a restore identity with `[database].admin_url_env`. Otherwise fix the cause above"
remedy (RehearsalError.secret_failed error) =
    "The pending migrations were not rehearsed: the live database DSN could not be resolved. Check the `DATABASE_URL` secret"

-- `trait RehearsalDb`
pub record RehearsalDb (W : Type 0) : Type 0 where
  pub provision : String → BackupSource → W → Result RehearsalError ThrowawayDb × W
  pub teardown : ThrowawayDb → W → Result String Done × W

abbrev pub on_throwaway : AdapterCtx → ThrowawayDb → AdapterCtx
on_throwaway ctx throwaway = with_resolved_secret database_url_secret throwaway.dsn ctx

abbrev pub against_throwaway : AdapterCtx → ThrowawayDb → AdapterCtx
against_throwaway ctx throwaway =
    with_resolved_secret against_database_url_secret throwaway.dsn (on_throwaway ctx throwaway)

abbrev pub classifies_deeply : AdapterDescription → Bool
classifies_deeply described = contains deep_classification described.capabilities

-- The error of a teardown, if any.
abbrev pub failure : Result String Done → Option String
failure (ok _) = none
failure (err error) = some error

unfoldable pub report_of :
    Result RehearsalError (List Revision)
    → Result String Done
    → Result RehearsalError RehearsalReport
report_of (ok applied) torn = ok (record { applied = applied; teardown_warning = failure torn })
report_of (err error) torn = err error

module _ {W : Type 0} (env : Env) (db : RehearsalDb W) (ctx : AdapterCtx)
    (backup : BackupSource) where
  -- What follows the look-up of the live DSN.
  unfoldable pub provision_from :
      Result AdapterError String → W → Result RehearsalError ThrowawayDb × W
  provision_from (ok live_dsn) w = db.provision live_dsn backup w
  provision_from (err error) w = (err (RehearsalError.secret_failed error), w)

  unfoldable pub provision : W → Result RehearsalError ThrowawayDb × W
  provision w = provision_from (secret env database_url_secret ctx) w

module _ {W : Type 0} (migration : MigrationAxis W) (ctx : AdapterCtx) where
  unfoldable pub applied_of :
      Result AdapterError MigrationOutcome → Result RehearsalError (List Revision)
  applied_of (ok outcome) = ok outcome.applied
  applied_of (err error) = err (RehearsalError.migrate_failed error)

  unfoldable pub rehearse_on : ThrowawayDb → W → Result RehearsalError (List Revision) × W
  rehearse_on throwaway w =
      let (r, w') = migration.up (on_throwaway ctx throwaway) none w in (applied_of r, w')

module _ {W : Type 0} (env : Env) (db : RehearsalDb W) (migration : MigrationAxis W)
    (ctx : AdapterCtx) (backup : BackupSource) where
  -- What follows the provisioning.
  unfoldable pub rehearse_from :
      Result RehearsalError ThrowawayDb × W → Result RehearsalError RehearsalReport × W
  rehearse_from (ok throwaway, w) =
      let (migrated, w₁) = rehearse_on migration ctx throwaway w in
      let (torn, w₂) = db.teardown throwaway w₁ in (report_of migrated torn, w₂)
  rehearse_from (err error, w) = (err error, w)

  unfoldable pub run_restore_rehearsal : W → Result RehearsalError RehearsalReport × W
  run_restore_rehearsal w = rehearse_from (provision env db ctx backup w)
