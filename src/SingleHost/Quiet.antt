-- ===== src/SingleHost/Quiet.antt =====
-- The preflight step of a single-host deploy, single_host.rs, changes neither the live database nor
-- the host's releases, also when it rehearses the migrations.
use fraisier_core.Common.{
  ap, ◌≡◌, refl, ◌∙◌, inl, inr, String, Bool, true, false, Option, none, some, List, [], ◌∷◌,
  Result, ok, err, Done, map_err, Bool-cases,
}
use fraisier_core.Common.Map.{lookup-insert}
use fraisier_core.Saga.Types.{SagaError}
use fraisier_core.Gate.Evaluate.{Baseline}
use fraisier_core.Gate.Report.{PreflightReport}
use fraisier_core.Gate.Admit.{AdapterDescription, Inspection, inspect, inspect_described}
use fraisier_core.Gate.Quiet.{Keeps, inspect-Keeps, inspect_described-Keeps, admit-Keeps}
use fraisier_core.BlueGreen.Types.{DatabaseReadiness, Act, call, pure, and_then}
use fraisier_core.BlueGreen.Preflight.{check, find_dsn, check_database, list_unready, judge_unready}
use fraisier_core.BlueGreen.Traffic.{bind-Keeps, judge_unready-Keeps}
use fraisier_core.Adapters.Errors.{AdapterError, show}
use fraisier_core.Adapters.Context.{Revision, AdapterCtx, Env, resolved_or, secret}
use fraisier_core.Adapters.Axes.{inspected_in}
use fraisier_core.SingleHost.Rehearsal.{
  database_url_secret, BackupSource, ThrowawayDb, RehearsalError, RehearsalDb, on_throwaway,
  provision_from, provision, RehearsalReport, against_throwaway, classifies_deeply, rehearse_on,
  rehearse_from, run_restore_rehearsal,
}
use fraisier_core.SingleHost.Types.{SingleHostDeploy, shared_ctx, DeployRuntime, failed, on_world}
use fraisier_core.SingleHost.Preflight.{
  judge_lint, lint_report, check_readiness, inspect_adapter, gate_unless, lint_after, judge,
  rehearsal_failed, keep_report, run_restore_rehearsal_step, rehearse_deeply, deep_checks,
  inspect_deeply, judge_deeply, check_and_drop, run_deep_preflight, static_preflight, rehearse_if,
  rehearse_after, judge_then_rehearse, choose_order, preflight_with, preflight_after,
  deep_rehearsal, fits_deep, run_preflight,
}
use fraisier_core.SingleHost.Contract.{Seen, IsQuiet}

-- The rehearsal's context names the throwaway database, whatever the deploy's own context declares.
pub secret-on_throwaway :
    (env : Env) (ctx : AdapterCtx) (throwaway : ThrowawayDb)
    → secret env database_url_secret (on_throwaway ctx throwaway) ≡ ok throwaway.dsn
unfolding secret resolved_or
secret-on_throwaway env ctx throwaway =
    rw (lookup-insert database_url_secret database_url_secret throwaway.dsn ctx.resolved_secrets)
      refl

map_err-ok : {A E F : Type 0} (f : E → F) (r : Result E A) (a : A) → map_err f r ≡ ok a → r ≡ ok a
map_err-ok f (ok x) a e = cc e
map_err-ok f (err x) a e = cc e

module _ {W O : Type 0} (seen : W → O) where
  on_world-Keeps :
      {A : Type 0} (act : Act W A) → Keeps seen act → Keeps (λ e. seen e.1) (on_world act)
  on_world-Keeps act k (runtime, w) = k w

  -- A continuation that is called with results of the first part alone.
  and_then-Keeps-when :
      {A B : Type 0} (Good : A → Type 0) (next : A → Act W B) (r : Result SagaError A × W)
      → ((a : A) → r.0 ≡ ok a → Good a)
      → ((a : A) → Good a → Keeps seen (next a))
      → seen (and_then next r).1 ≡ seen r.1
  and_then-Keeps-when Good next (ok a, w) good k = k a (good a refl) w
  and_then-Keeps-when Good next (err e, w) good k = refl

  judge_lint-Keeps : (issues : List String) → Keeps seen (judge_lint issues)
  unfolding judge_lint
  judge_lint-Keeps [] w = refl
  judge_lint-Keeps (issue ∷ issues) w = refl

  lint_report-Keeps : (report : Option PreflightReport) → Keeps seen (lint_report report)
  unfolding lint_report
  lint_report-Keeps none w = refl
  lint_report-Keeps (some report) w = judge_lint-Keeps _ w

module _ {W : Type 0} (deploy : SingleHostDeploy W) (seen : W → Seen)
    (quiet : IsQuiet deploy seen) where
  check_readiness-Keeps :
      (o : Option (String → W → Result String (List String) × W)) (rollback_to : Option Revision)
      → deploy.database_readiness ≡ o
      → Keeps seen (check_readiness deploy o rollback_to)
  unfolding check_readiness check
  check_readiness-Keeps none rollback_to e w = refl
  check_readiness-Keeps (some probe) (some revision) e w = refl
  check_readiness-Keeps (some probe) none e w =
      let readiness : DatabaseReadiness W AdapterError = record {
        live_dsn = λ w. (secret deploy.env database_url_secret (shared_ctx deploy), w);
        unready = probe;
      } in
      bind-Keeps seen (find_dsn show readiness) (check_database show readiness) (λ w. refl)
        (λ dsn.
          bind-Keeps seen (list_unready show readiness dsn) judge_unready
            (quiet.probing probe e dsn) (judge_unready-Keeps seen))
        w

  inspect_at-Keeps : (ctx : AdapterCtx) → Keeps seen (inspect (inspected_in ctx deploy.migration))
  inspect_at-Keeps ctx =
      inspect-Keeps seen (inspected_in ctx deploy.migration) quiet.describing (quiet.linting ctx)

  inspect_described_at-Keeps :
      (ctx : AdapterCtx) (described : AdapterDescription)
      → Keeps seen (inspect_described (inspected_in ctx deploy.migration) described)
  inspect_described_at-Keeps ctx =
      inspect_described-Keeps seen (inspected_in ctx deploy.migration) quiet.describing
        (quiet.linting ctx)

  inspect_adapter-Keeps :
      (described : Option AdapterDescription) → Keeps seen (inspect_adapter deploy described)
  unfolding inspect_adapter
  inspect_adapter-Keeps none w = elim (Bool-cases deploy.forward_compatible_lint) [
    | inl e ↦ rw (e, inspect_adapter) (inspect_at-Keeps (shared_ctx deploy) w)
    | inr e ↦ rw (e, inspect_adapter) refl
  ]
  inspect_adapter-Keeps (some described) w = elim (Bool-cases deploy.forward_compatible_lint) [
    | inl e ↦ rw (e, inspect_adapter) (inspect_described_at-Keeps (shared_ctx deploy) described w)
    | inr e ↦ rw (e, inspect_adapter) refl
  ]

  gate_unless-Keeps :
      (rollback_to : Option Revision) (inspection : Inspection)
      → Keeps seen (gate_unless deploy rollback_to inspection)
  unfolding gate_unless
  gate_unless-Keeps (some revision) inspection w = refl
  gate_unless-Keeps none inspection w =
      admit-Keeps seen deploy.policy quiet.asking (shared_ctx deploy).fraise
        (shared_ctx deploy).environment Baseline.no_rule inspection.capabilities inspection.report w

  judge-Keeps : (inspection : Inspection) → Keeps seen (judge deploy inspection)
  judge-Keeps inspection =
      bind-Keeps seen (gate_unless deploy deploy.rollback_to inspection)
        (lint_after deploy inspection) (gate_unless-Keeps deploy.rollback_to inspection)
        (λ _. lint_report-Keeps seen inspection.report)

  -- Migrating the throwaway leaves the live database.
  abbrev pub Apart : ThrowawayDb → Type 0
  Apart throwaway =
      (ctx : AdapterCtx)
      → secret deploy.env database_url_secret ctx ≡ ok throwaway.dsn
      → (target : Option Revision) → Keeps seen (deploy.migration.up ctx target)

  module _ (db : RehearsalDb W) (declared : deploy.restore_rehearsal ≡ some db) where
    module _ (backup : BackupSource) where
      provision-Keeps : Keeps seen (provision deploy.env db (shared_ctx deploy) backup)
      unfolding provision provision_from
      provision-Keeps w = go (secret deploy.env database_url_secret (shared_ctx deploy))
        where
          go :
              (r : Result AdapterError String)
              → seen (provision_from deploy.env db (shared_ctx deploy) backup r w).1 ≡ seen w
          go (ok dsn) = quiet.provisioning db declared dsn backup w
          go (err e) = refl

      provision-Apart :
          (w : W) (throwaway : ThrowawayDb)
          → (provision deploy.env db (shared_ctx deploy) backup w).0 ≡ ok throwaway
          → Apart throwaway
      unfolding provision provision_from
      provision-Apart w throwaway q =
          go (secret deploy.env database_url_secret (shared_ctx deploy)) refl q
        where
          go :
              (r : Result AdapterError String)
              → secret deploy.env database_url_secret (shared_ctx deploy) ≡ r
              → (provision_from deploy.env db (shared_ctx deploy) backup r w).0 ≡ ok throwaway
              → Apart throwaway
          go (ok dsn) e g =
              let w' = (db.provision dsn backup w).1 in
              quiet.isolated db declared dsn backup w w' throwaway e (ap (λ r. (r, w')) g)
          go (err x) e g = cc g

    up_elsewhere-Keeps :
        (throwaway : ThrowawayDb)
        → Apart throwaway
        → Keeps seen (deploy.migration.up (on_throwaway (shared_ctx deploy) throwaway) none)
    up_elsewhere-Keeps throwaway apart =
        apart (on_throwaway (shared_ctx deploy) throwaway)
          (secret-on_throwaway deploy.env (shared_ctx deploy) throwaway) none

    rehearse_on-Keeps :
        (throwaway : ThrowawayDb)
        → Apart throwaway
        → Keeps seen (rehearse_on deploy.migration (shared_ctx deploy) throwaway)
    unfolding rehearse_on
    rehearse_on-Keeps throwaway apart w = up_elsewhere-Keeps throwaway apart w

    rehearse_from-Keeps :
        (r : Result RehearsalError ThrowawayDb × W)
        → ((throwaway : ThrowawayDb) → r.0 ≡ ok throwaway → Apart throwaway)
        → seen
            (rehearse_from deploy.env db deploy.migration
              (shared_ctx deploy)
              deploy.backup_source
              r).1
          ≡ seen r.1
    unfolding rehearse_from
    rehearse_from-Keeps (ok throwaway, w) apart =
        quiet.dropping db declared throwaway _
        ∙ rehearse_on-Keeps throwaway (apart throwaway refl) w
    rehearse_from-Keeps (err e, w) apart = refl

    run_restore_rehearsal-Keeps : Keeps seen (
        run_restore_rehearsal deploy.env db deploy.migration
          (shared_ctx deploy)
          deploy.backup_source)
    unfolding run_restore_rehearsal
    run_restore_rehearsal-Keeps w =
        rehearse_from-Keeps (provision deploy.env db (shared_ctx deploy) deploy.backup_source w)
          (provision-Apart deploy.backup_source w)
        ∙ provision-Keeps deploy.backup_source w

    keep_report-Keeps :
        (runtime : DeployRuntime) (r : Result RehearsalError RehearsalReport × W)
        → seen (keep_report deploy runtime r).1.1 ≡ seen r.1
    unfolding keep_report
    keep_report-Keeps runtime (ok report, w) = refl
    keep_report-Keeps runtime (err e, w) = refl

    pub run_restore_rehearsal_step-Keeps :
        Keeps (λ e. seen e.1) (run_restore_rehearsal_step deploy db)
    unfolding run_restore_rehearsal_step
    run_restore_rehearsal_step-Keeps (runtime, w) =
        keep_report-Keeps runtime _ ∙ run_restore_rehearsal-Keeps w

    rehearse_deeply-Keeps :
        (throwaway : ThrowawayDb)
        → Apart throwaway
        → (d : Done) → Keeps seen (rehearse_deeply deploy throwaway d)
    rehearse_deeply-Keeps throwaway apart d =
        bind-Keeps seen
          (call rehearsal_failed (rehearse_on deploy.migration (shared_ctx deploy) throwaway))
          (λ _. pure tt) (rehearse_on-Keeps throwaway apart) (λ _ w. refl)

    deep_checks-Keeps :
        (described : AdapterDescription) (throwaway : ThrowawayDb)
        → Apart throwaway
        → Keeps seen (deep_checks deploy described throwaway)
    unfolding deep_checks
    deep_checks-Keeps described throwaway apart =
        bind-Keeps seen (inspect_deeply deploy described throwaway) (judge_deeply deploy throwaway)
          (inspect_described_at-Keeps (against_throwaway (shared_ctx deploy) throwaway) described)
          (λ inspection.
            bind-Keeps seen (judge deploy inspection) (rehearse_deeply deploy throwaway)
              (judge-Keeps inspection) (rehearse_deeply-Keeps throwaway apart))

    check_and_drop-Keeps :
        (described : AdapterDescription) (throwaway : ThrowawayDb)
        → Apart throwaway
        → Keeps (λ e. seen e.1) (check_and_drop deploy db described throwaway)
    unfolding check_and_drop
    check_and_drop-Keeps described throwaway apart (runtime, w) =
        quiet.dropping db declared throwaway _ ∙ deep_checks-Keeps described throwaway apart w

    pub run_deep_preflight-Keeps :
        (described : AdapterDescription)
        → Keeps (λ e. seen e.1) (run_deep_preflight deploy db described)
    run_deep_preflight-Keeps described (runtime, w) =
        and_then-Keeps-when (λ e. seen e.1) Apart (check_and_drop deploy db described)
          (on_world
            (call rehearsal_failed
              (provision deploy.env db (shared_ctx deploy) deploy.backup_source))
            (runtime, w))
          (λ throwaway e.
            provision-Apart deploy.backup_source w throwaway
              (map_err-ok rehearsal_failed _ throwaway e))
          (check_and_drop-Keeps described)
        ∙ provision-Keeps deploy.backup_source w

  rehearse_if-Keeps :
      (o : Option (RehearsalDb W)) (rollback_to : Option Revision)
      → deploy.restore_rehearsal ≡ o
      → Keeps (λ e. seen e.1) (rehearse_if deploy o rollback_to)
  unfolding rehearse_if
  rehearse_if-Keeps none rollback_to e w = refl
  rehearse_if-Keeps (some db) (some revision) e w = refl
  rehearse_if-Keeps (some db) none e w = run_restore_rehearsal_step-Keeps db e w

  static_preflight-Keeps :
      (described : Option AdapterDescription)
      → Keeps (λ e. seen e.1) (static_preflight deploy described)
  static_preflight-Keeps described =
      bind-Keeps (λ e. seen e.1) (on_world (inspect_adapter deploy described))
        (judge_then_rehearse deploy)
        (on_world-Keeps seen (inspect_adapter deploy described) (inspect_adapter-Keeps described))
        (λ inspection.
          bind-Keeps (λ e. seen e.1) (on_world (judge deploy inspection)) (rehearse_after deploy)
            (on_world-Keeps seen (judge deploy inspection) (judge-Keeps inspection))
            (λ _. rehearse_if-Keeps deploy.restore_rehearsal deploy.rollback_to refl))

  choose_order-Keeps :
      (db : RehearsalDb W)
      → deploy.restore_rehearsal ≡ some db
      → (described : AdapterDescription) → Keeps (λ e. seen e.1) (choose_order deploy db described)
  unfolding choose_order
  choose_order-Keeps db declared described e = elim (Bool-cases (classifies_deeply described)) [
    | inl deep ↦ rw (deep, choose_order) (run_deep_preflight-Keeps db declared described e)
    | inr static ↦ rw (static, choose_order) (static_preflight-Keeps (some described) e)
  ]

  preflight_with-Keeps :
      (o : Option (RehearsalDb W))
      → ((db : RehearsalDb W) → o ≡ some db → deploy.restore_rehearsal ≡ some db)
      → Keeps (λ e. seen e.1) (preflight_with deploy o)
  unfolding preflight_with
  preflight_with-Keeps none declared e = static_preflight-Keeps none e
  preflight_with-Keeps (some db) declared e =
      bind-Keeps (λ e. seen e.1) (on_world (call (failed "preflight") deploy.migration.describe))
        (choose_order deploy db) (λ e. quiet.describing e.1)
        (choose_order-Keeps db (declared db refl)) e

  deep_rehearsal-declared :
      (db : RehearsalDb W) → deep_rehearsal deploy ≡ some db → deploy.restore_rehearsal ≡ some db
  unfolding deep_rehearsal
  deep_rehearsal-declared db = go deploy.restore_rehearsal (fits_deep deploy)
    where
      go :
          (o : Option (RehearsalDb W)) (fits : Bool)
          → elim o [ none ↦ none | some found ↦ elim fits [ true ↦ some found | false ↦ none ] ]
            ≡ some db
          → o ≡ some db
      go none fits e = e
      go (some found) true e = e
      go (some found) false e = cc e

  -- The whole preflight step leaves the live database's revision and the host's releases alone, also
  -- when it makes a throwaway database, migrates it and drops it. This is for collaborators of which no
  -- call that preflight makes changes these, where the only migration that it runs, that of the throwaway
  -- database, is asked to leave the live one if the context names the throwaway as its database.
  pub run_preflight-Keeps : Keeps (λ e. seen e.1) (run_preflight deploy)
  unfolding run_preflight
  run_preflight-Keeps =
      bind-Keeps (λ e. seen e.1)
        (on_world (check_readiness deploy deploy.database_readiness deploy.rollback_to))
        (preflight_after deploy)
        (on_world-Keeps seen (check_readiness deploy deploy.database_readiness deploy.rollback_to)
          (check_readiness-Keeps deploy.database_readiness deploy.rollback_to refl))
        (λ _. preflight_with-Keeps (deep_rehearsal deploy) deep_rehearsal-declared)
