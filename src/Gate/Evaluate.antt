-- ===== src/Gate/Evaluate.antt =====
-- `evaluate` of crates/fraisier-core/src/policy.rs: the always-on rule of the strategy, then the
-- policy.
use fraisier_core.Common.{
  String, Bool, true, false, not, Option, none, some, List, [], ◌∷◌, map, any, filter, length,
  str_eq, if◌then◌else◌, Result, ok, err,
}
use fraisier_core.Gate.Report.{
  SchemaChange, ChangeSet, PreflightReport, ChangeSetUnavailable, show_unavailable,
  usable_change_set,
}
use fraisier_core.Gate.Rules.{PolicyAction, Policy, is_action, action_for}
use fraisier_core.Gate.Decision.{
  PolicyDecision, for_change, for_change_set, Triggers, assemble, unclassified_change_set,
}

-- `struct Capabilities`
pub record Capabilities : Type 0 where
  pub preflight : Bool
  pub risk_tier : Bool
  pub window_safe : Bool

-- `Capabilities::new`
unfoldable pub new : Bool → Bool → Capabilities
new preflight risk_tier = record {
  preflight = preflight;
  risk_tier = risk_tier;
  window_safe = false;
}

-- `Capabilities::with_window_safe`
unfoldable pub with_window_safe : Bool → Capabilities → Capabilities
with_window_safe window_safe capabilities = record capabilities { window_safe = window_safe }

-- `Capabilities::from_advertised`
unfoldable pub from_advertised : List String → Capabilities
unfolding new with_window_safe
from_advertised advertised =
    with_window_safe (any (str_eq "window_safe") advertised)
      (new (any (str_eq "preflight") advertised) (any (str_eq "risk_tier") advertised))

-- `judges_pending_only`
unfoldable pub judges_pending_only : List String → Bool
judges_pending_only advertised = any (str_eq "pending_scope") advertised

-- `enum Baseline`
pub data Baseline : Type 0 where
  no_rule : Baseline
  window_safety : Baseline

-- What `window_safe` of a report says of the window.
unfoldable pub window_verdict : Option Bool → Option String
window_verdict (some true) = none
window_verdict (some false) =
    some
      "the migration is NOT forward-compatible for a two-version window (confiture window_safe = false)"
window_verdict none =
    some
      "the migration adapter returned no window-safety verdict (window_safe); blue-green needs a confiture release that emits it — see fraiseql/confiture#154"

-- `baseline_verdict`
unfoldable pub baseline_verdict : Baseline → Capabilities → Option PreflightReport → Option String
baseline_verdict Baseline.no_rule capabilities report = none
baseline_verdict Baseline.window_safety capabilities report =
    if not capabilities.preflight
    then some
        "the migration adapter does not advertise `preflight`; nothing can certify the migration window-safe for a two-version blue-green window"
    else if not capabilities.window_safe
    then some
        "the migration adapter does not advertise `window_safe`; it runs the forward-compatibility lint but cannot classify every statement, so a `true` from it would mean *nothing was recognised*, not *nothing is unsafe* — see fraiseql/confiture#206"
    else elim report [
      | none ↦ some "no preflight report was produced; cannot certify the window"
      | some report ↦ window_verdict report.window_safe
    ]

-- The changes that are not auto-apply, each with its action and its reason.
unfoldable pub triggers_of : Policy → List SchemaChange → Triggers
triggers_of policy changes =
    filter (λ trigger. not (is_action trigger.0 PolicyAction.auto_apply))
      (map (λ change. (action_for policy change, for_change change)) changes)

-- What follows `usable_change_set`.
unfoldable pub judge : Policy → Result ChangeSetUnavailable ChangeSet → PolicyDecision
judge policy (ok change_set) =
    assemble policy (triggers_of policy change_set.changes) (length change_set.changes)
judge policy (err ChangeSetUnavailable.not_emitted) =
    unclassified_change_set policy
      "the migration adapter advertises `risk_tier` but emitted no change-set; it claimed to classify and then did not, which is an adapter bug"
      "no_change_set"
judge policy (err (ChangeSetUnavailable.version_too_new found understood)) =
    PolicyDecision.deny (show_unavailable (ChangeSetUnavailable.version_too_new found understood))
      (for_change_set "unreadable_change_set" ∷ [])

-- What follows the test for a report.
unfoldable pub judge_report : Policy → Capabilities → PreflightReport → PolicyDecision
judge_report policy capabilities report =
    if not capabilities.risk_tier
    then unclassified_change_set policy
        "the migration adapter does not advertise `risk_tier`, so no pending schema change was classified"
        "no_risk_tier_capability"
    else judge policy (usable_change_set report)

-- The tier policy, once the baseline is passed.
unfoldable pub judge_policy : Option Policy → Capabilities → Option PreflightReport → PolicyDecision
judge_policy none capabilities report = PolicyDecision.allow 0
judge_policy (some policy) capabilities none =
    PolicyDecision.deny
      "no preflight report was produced, so nothing inspected the pending schema changes; the policy cannot approve what nobody has looked at"
      (for_change_set "preflight_not_run" ∷ [])
judge_policy (some policy) capabilities (some report) = judge_report policy capabilities report

-- `evaluate`
unfoldable pub evaluate :
    Option Policy → Baseline → Capabilities → Option PreflightReport → PolicyDecision
evaluate policy baseline capabilities report =
    elim (baseline_verdict baseline capabilities report) [
      | some reason ↦ PolicyDecision.deny reason []
      | none ↦ judge_policy policy capabilities report
    ]
