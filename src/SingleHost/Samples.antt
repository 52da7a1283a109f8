-- ===== src/SingleHost/Samples.antt =====
-- A deploy over a small host, rehearsed first on a copy of the database: its theorems at that host.
use mathlib.Core.Option
use mathlib.Core.Bool.{false≢true}
use fraisier_core.Common.{
  ℕ, ◌+◌, ◌≡◌, ◌≢◌, refl, sym, ◌∙◌, ap, subst, String, Bool, true, false, Option, none, some, [],
  ◌∷◌, eq_iff, str_eq, format, Result, ok, err,
}
use fraisier_core.Common.Map.{lookup, insert, contains, remove}
use fraisier_core.Saga.Types.{FraiseKey, show_error}
use fraisier_core.Saga.Key.{slug}
use fraisier_core.Saga.Store.{Snapshots}
use fraisier_core.Saga.Driver.{
  Std, new, with_step, run_with_state, run_inner, execute, execute_from, after_forward, rollback,
  rollback_from, after_compensate, transition, after_release,
}
use fraisier_core.Saga.Memory.{
  MemoryInner, new as empty_store, memory_store, push, remember_key, acquire_lock, release_lock,
  record_state, record_event, record_snapshot, current_snapshot,
}
use fraisier_core.Saga.Memory.Contract.{is_locked, ledger_of, memory_store-Snapshots}
use fraisier_core.Gate.Quiet.{Keeps}
use fraisier_core.Gate.Evaluate.{from_advertised, evaluate, judge_policy, baseline_verdict}
use fraisier_core.Gate.Admit.{
  inspect, after_describe, inspect_described, after_preflight, inspected, admit, resolve,
}
use fraisier_core.Adapters.Errors.{AdapterError}
use fraisier_core.Adapters.Context.{
  Revision, StagedArtifact, AdapterCtx, new as new_ctx, Env, read_source, resolved_or, secret,
}
use fraisier_core.Adapters.Axes.{MigrationOutcome, MigrationAxis, new_report}
use fraisier_core.SingleHost.Rehearsal.{
  BackupSource, ThrowawayDb, RehearsalDb, RehearsalError, database_url_secret, provision,
  provision_from, rehearse_on, applied_of, rehearse_from, run_restore_rehearsal, report_of,
}
use fraisier_core.SingleHost.Types.{DeployRecord, SingleHostDeploy, no_runtime, shared_ctx}
use fraisier_core.SingleHost.Preflight.{
  run_preflight, check_readiness, preflight_with, deep_rehearsal, choose_order, inspect_adapter,
  gate_unless, lint_report, judge_lint, rehearse_if, run_restore_rehearsal_step, keep_report,
  note_warning,
}
use fraisier_core.SingleHost.Steps.{
  run_fetch, keep_staged, run_migrate, migrate_from, move_schema, keep_outcome, staged_ctx,
  in_release, run_activate, activate_staged, restart_for, run_health, judge_health, undo_migrate,
  undo_to, move_back, forget, activate_prior,
}
use fraisier_core.SingleHost.Deploy.{
  Serde, run_reporting, run_from, finish_from, finish, saga, prior_of, decode,
}
use fraisier_core.SingleHost.Contract.{Seen, IsQuiet, IsHost}
use fraisier_core.SingleHost.Quiet.{run_preflight-Keeps}

-- What is seen of the host, and a count of the throwaway databases that were dropped.
abbrev World : Type 0
World = Seen × ℕ

abbrev look : World → Seen
look w = w.0

abbrev env : Env
env name = ok "live"

abbrev staged_as : String → StagedArtifact
staged_as id = record { artifact = record { id = id; checksum = none }; path = id }

abbrev reaching : Result AdapterError String → Bool
reaching (ok dsn) = str_eq dsn "live"
reaching (err e) = false

abbrev outcome_at : Option Revision → MigrationOutcome
outcome_at to = record { from = none; to = to; applied = []; log = "" }

-- The revision is changed in the live database alone.
abbrev move_with : Bool → Revision → World → World
move_with true target w = ((some target, w.0.1), w.1)
move_with false target w = w

abbrev move_to : AdapterCtx → Revision → World → World
move_to ctx = move_with (reaching (secret env database_url_secret ctx))

abbrev latest : Option Revision → Revision
latest target = Option.get_or target "0002"

abbrev migration : MigrationAxis World
migration = record {
  describe = λ w. (
    ok (record {
      name = "confiture";
      version = "1";
      protocol_version = 1;
      capabilities = "preflight" ∷ [];
    }),
    w,
  );
  current_revision = λ ctx w. (ok w.0.0, w);
  up = λ ctx target w. (ok (outcome_at (some (latest target))), move_to ctx (latest target) w);
  down_to = λ ctx target w. (ok (outcome_at (some target)), move_to ctx target w);
  verify = λ ctx w. (ok (new_report true), w);
  preflight =
      λ ctx w. (ok (record { ok = true; issues = []; window_safe = none; change_set = none }), w);
  owns_database = true;
}

abbrev other_than : Bool → String
other_than true = "other"
other_than false = "copy"

abbrev copy_of : String → String
copy_of dsn = other_than (str_eq dsn "copy")

abbrev rehearsal : RehearsalDb World
rehearsal = record {
  provision = λ dsn backup w. (ok (record { dsn = copy_of dsn; name = "copy"; live = "shop" }), w);
  teardown = λ throwaway (s, n). (ok tt, (s, n + 1));
}

-- The service never answers its health check.
abbrev deploy : SingleHostDeploy World
deploy = record {
  fraise = "shop";
  environment = "prod";
  host = "web-1";
  ctx = record (new_ctx "shop" "prod") { env_secrets = ("DATABASE_URL", "DATABASE_URL") ∷ [] };
  target = none;
  rollback_to = none;
  forward_compatible_lint = true;
  policy = record { policy = none; hook = none };
  restore_rehearsal = some rehearsal;
  backup_source = BackupSource.fresh_dump;
  database_readiness = none;
  artifact = record {
    stage = λ ctx host w. (ok (staged_as "v2"), w);
    activate = λ ctx host staged ((revision, (live, serving)), n).
        (ok tt, ((revision, (some staged, serving)), n));
  };
  migration = migration;
  service = record {
    restart = λ ctx host ((revision, (live, serving)), n). (ok tt, ((revision, (live, live)), n));
  };
  health = record { check = λ ctx host w. (ok (record { healthy = false; detail = none }), w) };
  env = env;
  is_dir = λ path w. true;
  trim = λ text. text;
}

copy_of-ne : (dsn : String) → copy_of dsn ≢ dsn
copy_of-ne dsn = go (str_eq dsn "copy") refl
  where
    go : (b : Bool) → str_eq dsn "copy" ≡ b → other_than b ≢ dsn
    go true e h = absurd (false≢true ((eq_iff "other" "copy").1 (h ∙ (eq_iff dsn "copy").0 e)))
    go false e h = absurd (false≢true (sym e ∙ (eq_iff dsn "copy").1 (sym h)))

abbrev to_of : Result AdapterError MigrationOutcome → Option Revision
to_of (ok outcome) = outcome.to
to_of (err e) = none

rehearsal_is : (db : RehearsalDb World) → deploy.restore_rehearsal ≡ some db → rehearsal ≡ db
rehearsal_is db e = cc e

copy_apart :
    (dsn : String) (w w' : World) (throwaway : ThrowawayDb)
    → ◌≡◌ {A = Result RehearsalError ThrowawayDb × World}
        (ok (record { dsn = copy_of dsn; name = "copy"; live = "shop" }), w)
        (ok throwaway, w')
    → throwaway.dsn ≢ dsn
copy_apart dsn w w' throwaway q =
    let same : record { dsn = copy_of dsn; name = "copy"; live = "shop" } ≡ throwaway = cc q in
    subst (λ d. d ≢ dsn) (ap (λ t. t.dsn) same) (copy_of-ne dsn)

-- The declared secret is the live DSN.
declared : secret env database_url_secret (shared_ctx deploy) ≡ ok "live"
unfolding secret resolved_or read_source lookup
declared = refl

not-reaching : (other : String) → other ≢ "live" → reaching (ok other) ≡ false
not-reaching other h = go (str_eq other "live") refl
  where
    go : (b : Bool) → str_eq other "live" ≡ b → b ≡ false
    go true e = absurd (h ((eq_iff other "live").0 e))
    go false e = refl

move_to-releases :
    (ctx : AdapterCtx) (target : Revision) (w : World) → (look (move_to ctx target w)).1 ≡ w.0.1
move_to-releases ctx target w = go (reaching (secret env database_url_secret ctx))
  where
    go : (b : Bool) → (look (move_with b target w)).1 ≡ w.0.1
    go true = refl
    go false = refl

there :
    (ctx : AdapterCtx)
    → secret env database_url_secret ctx ≡ secret env database_url_secret (shared_ctx deploy)
    → reaching (secret env database_url_secret ctx) ≡ true
there ctx e = ap reaching (e ∙ declared)

-- The revision after a migration that reaches the live database.
moved :
    (ctx : AdapterCtx) (target : Revision) (w w' : World) (outcome : MigrationOutcome)
    → secret env database_url_secret ctx ≡ secret env database_url_secret (shared_ctx deploy)
    → ◌≡◌ {A = Result AdapterError MigrationOutcome × World}
        (ok (outcome_at (some target)), move_to ctx target w)
        (ok outcome, w')
    → (w'.0.0 ≡ some target) × (outcome.to ≡ some target)
moved ctx target w w' outcome e q = (
  ap (λ r. r.1.0.0) (sym q) ∙ ap (λ b. (move_with b target w).0.0) (there ctx e),
  ap (λ r. to_of r.0) (sym q),
)

live_is :
    (dsn : String) → secret env database_url_secret (shared_ctx deploy) ≡ ok dsn → "live" ≡ dsn
live_is dsn e = let same = sym declared ∙ e in cc same

quiet : IsQuiet deploy look
quiet = record {
  describing = λ w. refl;
  linting = λ ctx w. refl;
  reading = λ ctx w. refl;
  verifying = λ ctx w. refl;
  checking = λ ctx w. refl;
  staging = λ ctx w. refl;
  probing = λ probe e dsn w. cc e;
  asking = λ hook e request w. cc e;
  provisioning = λ db e dsn backup w.
      subst (λ d. look (d.provision dsn backup w).1 ≡ look w) (rehearsal_is db e) refl;
  dropping = λ db e throwaway w.
      subst (λ d. look (d.teardown throwaway w).1 ≡ look w) (rehearsal_is db e) refl;
  isolated = λ db e dsn backup w w' throwaway.
      subst
        (λ d.
          secret env database_url_secret (shared_ctx deploy) ≡ ok dsn
          → d.provision dsn backup w ≡ (ok throwaway, w')
          → (ctx : AdapterCtx) → secret env database_url_secret ctx ≡ ok throwaway.dsn
          → (target : Option Revision) → Keeps look (deploy.migration.up ctx target))
        (rehearsal_is db e)
        (λ live made ctx named target v.
          ap (λ b. look (move_with b (latest target) v))
            (ap reaching named
              ∙ not-reaching throwaway.dsn
                  (λ k. copy_apart dsn w w' throwaway made (k ∙ live_is dsn live))));
}

host : IsHost deploy look
unfolding Option.or_else
host = record {
  quiet = quiet;
  reads = λ ctx e w w' r q. cc q;
  up_releases = λ ctx target w. move_to-releases ctx (latest target) w;
  down_releases = λ ctx target w. move_to-releases ctx target w;
  reports = λ owns ctx e target w w' outcome q.
      let (after, to) = moved ctx (latest target) w w' outcome e q in to ∙ sym after;
  applies = λ owns ctx e target w w' outcome q gone.
      let after = (moved ctx (latest target) w w' outcome e q).0 in cc (after, gone);
  ups_to = λ owns ctx e target w w' outcome q. (moved ctx target w w' outcome e q).0;
  downs = λ owns ctx e target w w' outcome q. (moved ctx target w w' outcome e q).0;
  up_nowhere = λ e ctx target w. absurd (false≢true (sym e));
  down_nowhere = λ e ctx target w. absurd (false≢true (sym e));
  activates = λ ctx staged w w' q. ap (λ r. look r.1) (sym q);
  activating = λ ctx staged w. refl;
  restarts = λ ctx w w' q. ap (λ r. look r.1) (sym q);
  restart_fails = λ ctx w w' x q. cc q;
}

abbrev v1 : DeployRecord
v1 = record { active = some (staged_as "v1"); revision = some "0001" }

abbrev serde : Serde DeployRecord
serde = record { to_value = λ r. ok r; from_value = λ r. ok r }

abbrev hash : FraiseKey → ℕ
hash k = 7

abbrev Inner : Type 0
Inner = MemoryInner DeployRecord

abbrev std : Std Inner
std = record { now = λ s. 7; is_alphanumeric = λ c. true; is_whitespace = λ c. false }

abbrev deploy_key : FraiseKey
deploy_key = record { fraise = "shop"; environment = "prod" }

-- A store whose ledger names the first release.
abbrev deployed_once : Inner
deployed_once = (record_snapshot hash deploy_key v1 empty_store).1

abbrev world : World
world = ((some "0001", (some (staged_as "v1"), some (staged_as "v1"))), 0)

abbrev ledger : Inner → Option DeployRecord
ledger = ledger_of hash deploy_key

program : Unit {0}
unfolding run_reporting run_from prior_of decode finish_from finish saga new with_step
    run_with_state run_inner execute execute_from after_forward rollback rollback_from
    after_compensate transition after_release acquire_lock release_lock record_state record_event
    record_snapshot current_snapshot push remember_key is_locked ledger_of slug lookup insert
    contains remove format show_error run_preflight check_readiness preflight_with deep_rehearsal
    choose_order inspect_adapter inspect after_describe inspect_described after_preflight inspected
    gate_unless admit resolve evaluate judge_policy baseline_verdict from_advertised lint_report
    judge_lint rehearse_if run_restore_rehearsal_step keep_report note_warning run_restore_rehearsal
    rehearse_from provision provision_from rehearse_on applied_of report_of secret resolved_or
    read_source run_fetch keep_staged run_migrate migrate_from move_schema keep_outcome staged_ctx
    in_release run_activate activate_staged restart_for run_health judge_health undo_migrate undo_to
    move_back forget activate_prior Option.or_else
program = tt

-- The health check fails: the first release runs again, on its own schema, and the copy was dropped.
rolled_back :
    (run_reporting (memory_store hash) std serde deploy deployed_once world).2.1 ≡ (world.0, 1)
unfolding program
rolled_back = refl

run_preflight-Keeps_example : look (run_preflight deploy (no_runtime, world)).1.1 ≡ look world
run_preflight-Keeps_example = run_preflight-Keeps deploy look quiet (no_runtime, world)

memory_store-Snapshots_example :
    Snapshots (memory_store {Json = DeployRecord} hash) deploy_key ledger
memory_store-Snapshots_example = memory_store-Snapshots hash deploy_key
