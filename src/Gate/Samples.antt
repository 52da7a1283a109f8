-- ===== src/Gate/Samples.antt =====
-- A change-set with a dropped column under the default policy: tests of the gate, and its theorems
-- at it.
use mathlib.Core.Bool.{false≢true}
use fraisier_core.Common.{
  ℕ, ◌+◌, ◌≡◌, ◌≢◌, ◌↔◌, ◌⊎◌, refl, sym, ap, String, true, none, some, List, [], ◌∷◌, ok,
}
use fraisier_core.Gate.Tier.{RiskTier, as_str, find_named, from_str, max_tier}
use fraisier_core.Gate.Tier.Names.{from_str-as_str}
use fraisier_core.Gate.Report.{SchemaChange, PreflightReport, usable_change_set, worst_tier}
use fraisier_core.Gate.Rules.{
  PolicyAction, UnclassifiedAction, Policy, new, with_approval_hook, default_policy, get_action,
  action_for, worst,
}
use fraisier_core.Gate.Decision.{
  PolicyReason, PolicyDecision, ApprovalVerdict, for_change, for_change_set, new_request, summarise,
  conclude, assemble, unclassified_change_set,
}
use fraisier_core.Gate.Evaluate.{
  Capabilities, Baseline, from_advertised, window_verdict, baseline_verdict, triggers_of, judge,
  judge_report, judge_policy, evaluate,
}
use fraisier_core.Gate.Admit.{PolicyGate, answer, resolve, admit}
use fraisier_core.Gate.Verdicts.{Decides, evaluate-Decides}
use fraisier_core.Gate.Allowed.{is_allow, Certified, evaluate-Certified}
use fraisier_core.Gate.Window.{IsWindowSafe, evaluate-IsWindowSafe}
use fraisier_core.Gate.Admitted.{IsApproved, admit-ok}

abbrev change_of : String → RiskTier → SchemaChange
change_of object tier = record {
  kind = "alter";
  object = object;
  migration = none;
  tier = some tier;
  detail = none;
}

abbrev report_of : List SchemaChange → PreflightReport
report_of changes = record {
  ok = true;
  issues = [];
  window_safe = some true;
  change_set = some (record { contract_version = 1; changes = changes });
}

abbrev adding : List SchemaChange
adding = change_of "orders" RiskTier.additive ∷ change_of "items" RiskTier.reversible ∷ []

abbrev dropping : List SchemaChange
dropping = change_of "orders" RiskTier.additive ∷ change_of "users" RiskTier.destructive ∷ []

abbrev able : Capabilities
able = record { preflight = true; risk_tier = true; window_safe = true }

-- The default policy, with a hook.
abbrev policy : Policy
policy = record {
  actions =
      (RiskTier.additive, PolicyAction.auto_apply)
      ∷ (RiskTier.reversible, PolicyAction.auto_apply)
      ∷ (RiskTier.lock_risky, PolicyAction.require_approval)
      ∷ (RiskTier.destructive, PolicyAction.require_approval)
      ∷ (RiskTier.irreversible, PolicyAction.require_approval)
      ∷ [];
  unclassified = UnclassifiedAction.deny;
  has_approval_hook = true;
}

-- Signs everything off, and counts the requests.
abbrev gate : PolicyGate ℕ
gate = record {
  policy = some policy;
  hook = some (λ request w. (ApprovalVerdict.approved "alice", w + 1));
}

program : Unit {0}
unfolding evaluate judge_policy judge_report judge baseline_verdict window_verdict triggers_of
    assemble conclude unclassified_change_set summarise worst action_for get_action
    usable_change_set admit resolve answer new_request default_policy with_approval_hook new
    from_advertised from_str find_named as_str max_tier worst_tier for_change_set
program = tt

default_with_hook : with_approval_hook true default_policy ≡ policy
unfolding program
default_with_hook = refl

advertised : from_advertised ("up" ∷ "preflight" ∷ "risk_tier" ∷ "window_safe" ∷ []) ≡ able
unfolding program
advertised = refl

adding_allowed :
    evaluate (some policy) Baseline.window_safety able (some (report_of adding))
    ≡ PolicyDecision.allow 2
unfolding program
adding_allowed = refl

dropping_held :
    evaluate (some policy) Baseline.no_rule able (some (report_of dropping))
    ≡ PolicyDecision.needs_approval (for_change (change_of "users" RiskTier.destructive) ∷ [])
unfolding program
dropping_held = refl

dropping_admitted :
    admit gate "shop" "prod" Baseline.no_rule able (some (report_of dropping)) 0 ≡ (ok tt, 1)
unfolding program
dropping_admitted = refl

baseline_passes : baseline_verdict Baseline.window_safety able (some (report_of dropping)) ≡ none
unfolding program
baseline_passes = refl

dropping_usable :
    usable_change_set (report_of dropping)
    ≡ ok (record { contract_version = 1; changes = dropping })
unfolding program
dropping_usable = refl

evaluate-Decides_example :
    Decides policy dropping
      (evaluate (some policy) Baseline.window_safety able (some (report_of dropping)))
evaluate-Decides_example =
    evaluate-Decides policy Baseline.window_safety able (report_of dropping)
      (record { contract_version = 1; changes = dropping }) baseline_passes refl dropping_usable

evaluate-Certified_example :
    Certified policy Baseline.window_safety able (some (report_of adding)) 2
evaluate-Certified_example =
    evaluate-Certified policy 2 Baseline.window_safety able (some (report_of adding)) adding_allowed

adding_not_denied :
    (reason : String) (reasons : List PolicyReason)
    → evaluate (some policy) Baseline.window_safety able (some (report_of adding))
      ≢ PolicyDecision.deny reason reasons
unfolding program
adding_not_denied reason reasons e = false≢true (sym (ap is_allow e))

evaluate-IsWindowSafe_example : IsWindowSafe able (some (report_of adding))
evaluate-IsWindowSafe_example =
    evaluate-IsWindowSafe able (some policy) (some (report_of adding)) adding_not_denied

admit-ok_example :
    ((n : ℕ) × Certified policy Baseline.no_rule able (some (report_of dropping)) n
      × (◌≡◌ {A = ℕ} 1 0))
    ⊎ ((reasons : List PolicyReason) × (evaluate
            (some policy)
            Baseline.no_rule
            able
            (some (report_of dropping))
          ≡ PolicyDecision.needs_approval reasons)
        × IsApproved gate "shop" "prod" reasons 0 1)
admit-ok_example =
    admit-ok gate "shop" "prod" policy Baseline.no_rule able (some (report_of dropping)) 0 1 refl
      dropping_admitted

from_str-as_str_example :
    (from_str "lock_risky" ≡ ok RiskTier.lock_risky) ↔ ("lock_risky" ≡ as_str RiskTier.lock_risky)
from_str-as_str_example = from_str-as_str "lock_risky" RiskTier.lock_risky
