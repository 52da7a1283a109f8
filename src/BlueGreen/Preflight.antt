-- ===== src/BlueGreen/Preflight.antt =====
-- The preflight step of a blue-green deploy: readiness.rs and `run_preflight` of blue_green.rs.
use fraisier_core.Common.{
  String, Option, none, some, List, [], ◌∷◌, format, join, Result, ok, err, Done,
}
use fraisier_core.Gate.Evaluate.{Baseline}
use fraisier_core.Gate.Admit.{Inspection, inspect, admit}
use fraisier_core.Budget.{BudgetSnapshot, BudgetVerdict, evaluate}
use fraisier_core.BlueGreen.Types.{DatabaseReadiness, BgShared, failed, Act, call, ◌>>=◌}

-- What follows the probe's reasons.
unfoldable pub judge_unready : {W : Type 0} → List String → Act W Done
judge_unready [] w = (ok tt, w)
judge_unready (reason ∷ reasons) w = (
  err (
      failed "preflight" (
        format
          ("the database is not ready for this deployable: " ∷ join "; " (reason ∷ reasons) ∷ []))),
  w,
)

module _ {W Err : Type 0} (show : Err → String) (probe : DatabaseReadiness W Err) where
  abbrev pub find_dsn : Act W String
  find_dsn =
      call
        (λ error. failed "preflight" (
          format (
            "could not check database readiness: the database DSN is unavailable: "
            ∷ show error
            ∷ [])))
        probe.live_dsn

  abbrev pub list_unready : String → Act W (List String)
  list_unready live_dsn =
      call
        (λ error. failed "preflight" (format ("could not check database readiness: " ∷ error ∷ [])))
        (probe.unready live_dsn)

  abbrev pub check_database : String → Act W Done
  check_database live_dsn = list_unready live_dsn >>= judge_unready

  -- `readiness::check`
  unfoldable pub check : Act W Done
  check = find_dsn >>= check_database

-- What follows the budget's verdict.
unfoldable pub judge_budget : {W : Type 0} → BudgetVerdict → Act W Done
judge_budget BudgetVerdict.ok w = (ok tt, w)
judge_budget (BudgetVerdict.warn message) w = (ok tt, w)
judge_budget (BudgetVerdict.refuse reason) w = (err (failed "preflight" reason), w)

module _ {W Err : Type 0} (shared : BgShared W Err) where
  unfoldable pub check_readiness : Option (DatabaseReadiness W Err) → Act W Done
  check_readiness none w = (ok tt, w)
  check_readiness (some probe) w = check shared.show probe w

  abbrev pub probe_budget : (W → Result String BudgetSnapshot × W) → Act W BudgetSnapshot
  probe_budget probe =
      call (λ e. failed "preflight" (format ("connection-budget probe: " ∷ e ∷ []))) probe

  abbrev pub weigh : BudgetSnapshot → Act W Done
  weigh snapshot = judge_budget (evaluate snapshot shared.green_pool shared.budget_margin)

  unfoldable pub check_budget : Option (W → Result String BudgetSnapshot × W) → Act W Done
  check_budget none w = (ok tt, w)
  check_budget (some probe) w = (probe_budget probe >>= weigh) w

  abbrev pub inspect_adapter : Act W Inspection
  inspect_adapter =
      call
        (λ e.
          failed "preflight"
            (format ("cannot certify the migration for the hold window: " ∷ shared.show e ∷ [])))
        (inspect shared.migration)

  unfoldable pub certify : Inspection → Act W Done
  certify inspection = call (failed "preflight") (
      admit shared.policy shared.fraise shared.environment Baseline.window_safety
        inspection.capabilities inspection.report)

  abbrev pub after_certify : Done → Act W Done
  after_certify _ = check_budget shared.budget

  abbrev pub after_inspect : Inspection → Act W Done
  after_inspect inspection = certify inspection >>= after_certify

  abbrev pub after_readiness : Done → Act W Done
  after_readiness _ = inspect_adapter >>= after_inspect

  -- `run_preflight`
  unfoldable pub run_preflight : Act W Done
  run_preflight = check_readiness shared.database_readiness >>= after_readiness
