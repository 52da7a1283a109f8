-- ===== src/BlueGreen/Traffic.antt =====
-- Where the traffic goes after a blue-green deploy, blue_green.rs, for collaborators that leave it
-- alone and a director that moves it.
use fraisier_core.Common.{
  ℕ, ◌≡◌, refl, ◌∙◌, String, Option, none, some, List, [], ◌∷◌, Result, ok, err,
}
use fraisier_core.Saga.Types.{SagaError}
use fraisier_core.Gate.Decision.{ApprovalRequest, ApprovalVerdict}
use fraisier_core.Gate.Evaluate.{Baseline}
use fraisier_core.Gate.Admit.{Inspection}
use fraisier_core.Gate.Quiet.{Keeps, inspect-Keeps, admit-Keeps}
use fraisier_core.Budget.{BudgetSnapshot, BudgetVerdict}
use fraisier_core.BlueGreen.Types.{TrafficTarget, DatabaseReadiness, BgShared, Act, and_then, ◌>>=◌}
use fraisier_core.BlueGreen.Preflight.{
  judge_unready, find_dsn, list_unready, check_database, check, judge_budget, check_readiness,
  probe_budget, weigh, check_budget, inspect_adapter, certify, after_certify, after_inspect,
  after_readiness, run_preflight,
}

module _ {W O : Type 0} (seen : W → O) where
  and_then-Keeps :
      {A B : Type 0} (next : A → Act W B)
      → ((a : A) → Keeps seen (next a))
      → (r : Result SagaError A × W) → seen (and_then next r).1 ≡ seen r.1
  and_then-Keeps next k (ok a, w) = k a w
  and_then-Keeps next k (err e, w) = refl

  pub bind-Keeps :
      {A B : Type 0} (act : Act W A) (next : A → Act W B)
      → Keeps seen act
      → ((a : A) → Keeps seen (next a))
      → Keeps seen (act >>= next)
  bind-Keeps act next k ks w = and_then-Keeps next ks (act w) ∙ k w

  pub judge_unready-Keeps : (reasons : List String) → Keeps seen (judge_unready reasons)
  unfolding judge_unready
  judge_unready-Keeps [] w = refl
  judge_unready-Keeps (reason ∷ reasons) w = refl

  judge_budget-Keeps : (verdict : BudgetVerdict) → Keeps seen (judge_budget verdict)
  unfolding judge_budget
  judge_budget-Keeps BudgetVerdict.ok w = refl
  judge_budget-Keeps (BudgetVerdict.warn message) w = refl
  judge_budget-Keeps (BudgetVerdict.refuse reason) w = refl

module _ {W Err : Type 0} (shared : BgShared W Err) (target : W → TrafficTarget) where
  -- The collaborators' contract: the director says where the traffic goes, moves it or fails and
  -- leaves it, and nothing else moves it.
  pub record Steers : Type 0 where
    pub reads :
        (w w' : W) (t : TrafficTarget) → shared.traffic.current_target w ≡ (ok t, w') → t ≡ target w
    pub reading : Keeps target shared.traffic.current_target
    pub moves :
        (t : TrafficTarget) (w w' : W) → shared.traffic.switch_to t w ≡ (ok tt, w') → target w' ≡ t
    pub fails :
        (t : TrafficTarget) (w w' : W) (x : Err)
        → shared.traffic.switch_to t w ≡ (err x, w')
        → target w' ≡ target w
    pub describe : Keeps target shared.migration.describe
    pub preflight : Keeps target shared.migration.preflight
    pub up : Keeps target shared.up
    pub provision_green : Keeps target shared.fleet.provision_green
    pub green_healthy : Keeps target shared.fleet.green_healthy
    pub watch_green : (hold : ℕ) → Keeps target (shared.fleet.watch_green hold)
    pub reap_green : Keeps target shared.fleet.reap_green
    pub reap_blue : Keeps target shared.fleet.reap_blue
    pub probing :
        (probe : W → Result String BudgetSnapshot × W)
        → shared.budget ≡ some probe
        → Keeps target probe
    pub asking :
        (hook : ApprovalRequest → W → ApprovalVerdict × W)
        → shared.policy.hook ≡ some hook
        → (request : ApprovalRequest) → Keeps target (hook request)
    pub looking_up :
        (probe : DatabaseReadiness W Err)
        → shared.database_readiness ≡ some probe
        → Keeps target probe.live_dsn
    pub checking :
        (probe : DatabaseReadiness W Err)
        → shared.database_readiness ≡ some probe
        → (dsn : String) → Keeps target (probe.unready dsn)

  module _ (steers : Steers) where
    check_readiness-Keeps :
        (o : Option (DatabaseReadiness W Err))
        → shared.database_readiness ≡ o
        → Keeps target (check_readiness shared o)
    unfolding check_readiness check
    check_readiness-Keeps none e w = refl
    check_readiness-Keeps (some probe) e w =
        bind-Keeps target (find_dsn shared.show probe) (check_database shared.show probe)
          (steers.looking_up probe e)
          (λ dsn.
            bind-Keeps target (list_unready shared.show probe dsn) judge_unready
              (steers.checking probe e dsn) (judge_unready-Keeps target))
          w

    check_budget-Keeps :
        (o : Option (W → Result String BudgetSnapshot × W))
        → shared.budget ≡ o
        → Keeps target (check_budget shared o)
    unfolding check_budget
    check_budget-Keeps none e w = refl
    check_budget-Keeps (some probe) e w =
        bind-Keeps target (probe_budget shared probe) (weigh shared) (steers.probing probe e)
          (λ snapshot. judge_budget-Keeps target _) w

    certify-Keeps : (inspection : Inspection) → Keeps target (certify shared inspection)
    unfolding certify
    certify-Keeps inspection w =
        admit-Keeps target shared.policy steers.asking shared.fraise shared.environment
          Baseline.window_safety inspection.capabilities inspection.report w

    pub run_preflight-Keeps : Keeps target (run_preflight shared)
    unfolding run_preflight
    run_preflight-Keeps =
        bind-Keeps target (check_readiness shared shared.database_readiness)
          (after_readiness shared) (check_readiness-Keeps shared.database_readiness refl)
          (λ _.
            bind-Keeps target (inspect_adapter shared) (after_inspect shared)
              (inspect-Keeps target shared.migration steers.describe steers.preflight)
              (λ inspection.
                bind-Keeps target (certify shared inspection) (after_certify shared)
                  (certify-Keeps inspection) (λ _. check_budget-Keeps shared.budget refl)))
