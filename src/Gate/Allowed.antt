-- ===== src/Gate/Allowed.antt =====
-- What has to hold for `evaluate` of policy.rs to allow a deploy.
use mathlib.Core.Bool.{false≢true}
use fraisier_core.Common.{
  ℕ, ◌≡◌, ◌≢◌, refl, sym, ◌∙◌, ap, inl, inr, String, Bool, true, false, Option, none, some, List,
  Bool-cases, Option-cases, All, All-map, length, arith, Result, ok, err,
}
use fraisier_core.Gate.Tier.{RiskTier}
use fraisier_core.Gate.Report.{
  SchemaChange, ChangeSet, PreflightReport, ChangeSetUnavailable, usable_change_set,
}
use fraisier_core.Gate.Rules.{
  PolicyAction, UnclassifiedAction, Policy, get_action, action_of, or_deny, action_for, worst,
  restrictiveness,
}
use fraisier_core.Gate.Decision.{
  PolicyReason, PolicyDecision, conclude, assemble, unclassified_change_set,
}
use fraisier_core.Gate.Evaluate.{
  Capabilities, Baseline, baseline_verdict, judge, judge_report, judge_policy, evaluate,
}
use fraisier_core.Gate.Verdicts.{
  Decides, allows, holds, unhooked, denies, assemble-Decides, evaluate-passes, evaluate-refused,
  judge_report-classifies,
}

abbrev pub is_allow : PolicyDecision → Bool
is_allow (PolicyDecision.allow changes) = true
is_allow _ = false

abbrev allowed_count : PolicyDecision → ℕ
allowed_count (PolicyDecision.allow changes) = changes
allowed_count _ = 0

-- The change is of a tier that the policy names as auto-apply.
abbrev pub IsAutoTier : Policy → SchemaChange → Type 0
IsAutoTier policy change =
    (t : RiskTier) × (change.tier ≡ some t)
    × (get_action t policy.actions ≡ some PolicyAction.auto_apply)

pub record Certified (policy : Policy) (baseline : Baseline) (capabilities : Capabilities)
    (report : Option PreflightReport) (n : ℕ) : Type 0 where
  pub passes : baseline_verdict baseline capabilities report ≡ none
  pub classifies : capabilities.risk_tier ≡ true
  pub change_set : ChangeSet
  pub usable : (r : PreflightReport) × (report ≡ some r) × (usable_change_set r ≡ ok change_set)
  pub auto : All (IsAutoTier policy) change_set.changes
  pub counted : n ≡ length change_set.changes

action_of-not_auto : (u : UnclassifiedAction) → action_of u ≢ PolicyAction.auto_apply
action_of-not_auto UnclassifiedAction.deny e = absurd (omega (arith, ap restrictiveness e))
action_of-not_auto UnclassifiedAction.require_approval e =
    absurd (omega (arith, ap restrictiveness e))

or_deny-auto :
    (o : Option PolicyAction)
    → or_deny o ≡ PolicyAction.auto_apply
    → o ≡ some PolicyAction.auto_apply
or_deny-auto none e = absurd (omega (arith, ap restrictiveness e))
or_deny-auto (some a) e = ap some e

module _ (policy : Policy) (c : SchemaChange) where
  action_for-none : c.tier ≡ none → action_for policy c ≡ action_of policy.unclassified
  unfolding action_for
  action_for-none unknown = rw (unknown, action_for)

  action_for-some :
      (t : RiskTier) → c.tier ≡ some t → action_for policy c ≡ or_deny (get_action t policy.actions)
  unfolding action_for
  action_for-some t known = rw (known, action_for)

  action_for-auto : action_for policy c ≡ PolicyAction.auto_apply → IsAutoTier policy c
  action_for-auto e = elim (Option-cases c.tier) [
    | inl unknown ↦
        absurd (action_of-not_auto policy.unclassified (sym (action_for-none unknown) ∙ e))
    | inr (t, known) ↦
        (t, known, or_deny-auto (get_action t policy.actions) (sym (action_for-some t known) ∙ e))
  ]

conclude-require :
    (policy : Policy) (n : ℕ) (named : String) (reasons : List PolicyReason) (k : ℕ)
    → is_allow (conclude policy PolicyAction.require_approval n named reasons k) ≡ false
unfolding conclude
conclude-require policy n named reasons k = elim (Bool-cases policy.has_approval_hook) [
  | inl hook ↦ rw hook
  | inr no_hook ↦ rw no_hook
]

-- A change-set that nobody classified is never allowed.
unclassified_change_set-refuses :
    (policy : Policy) (cause kind : String)
    → is_allow (unclassified_change_set policy cause kind) ≡ false
unfolding unclassified_change_set assemble worst
unclassified_change_set-refuses policy cause kind = go policy.unclassified refl
  where
    go :
        (u : UnclassifiedAction)
        → policy.unclassified ≡ u
        → is_allow (unclassified_change_set policy cause kind) ≡ false
    go UnclassifiedAction.deny e = rw (e, unclassified_change_set)
    go UnclassifiedAction.require_approval e =
        rw (e, unclassified_change_set) (conclude-require _ _ _ _ _)

judge_report-silent :
    (policy : Policy) (capabilities : Capabilities) (r : PreflightReport)
    → capabilities.risk_tier ≡ false
    → is_allow (judge_report policy capabilities r) ≡ false
unfolding judge_report
judge_report-silent policy capabilities r silent =
    rw (silent) (unclassified_change_set-refuses policy _ _)

module _ (policy : Policy) (n : ℕ) where
  not_allow : (d : PolicyDecision) → is_allow d ≡ false → d ≢ PolicyDecision.allow n
  not_allow d refuses e = false≢true (sym refuses ∙ ap is_allow e)

  Decides-allow :
      (changes : List SchemaChange) (d : PolicyDecision)
      → Decides policy changes d
      → d ≡ PolicyDecision.allow n
      → All (IsAutoTier policy) changes × (n ≡ length changes)
  Decides-allow changes d (allows h) e =
      (All-map _ _ (action_for-auto policy) changes h, sym (ap allowed_count e))
  Decides-allow changes d (holds bounded required hook) e = absurd (not_allow _ refl e)
  Decides-allow changes d (unhooked reason bounded required no_hook) e = absurd (not_allow _ refl e)
  Decides-allow changes d (denies reason denied) e = absurd (not_allow _ refl e)

  module _ (baseline : Baseline) (capabilities : Capabilities) where
    judge-allow :
        (r : PreflightReport)
        → baseline_verdict baseline capabilities (some r) ≡ none
        → capabilities.risk_tier ≡ true
        → (u : Result ChangeSetUnavailable ChangeSet) → usable_change_set r ≡ u
        → judge policy u ≡ PolicyDecision.allow n
        → Certified policy baseline capabilities (some r) n
    unfolding judge
    judge-allow r passes classifies (ok change_set) usable e =
        let (auto, counted) =
          Decides-allow change_set.changes _ (assemble-Decides policy change_set.changes) e in
        record {
          passes = passes;
          classifies = classifies;
          change_set = change_set;
          usable = (r, refl, usable);
          auto = auto;
          counted = counted;
        }
    judge-allow r passes classifies (err ChangeSetUnavailable.not_emitted) usable e =
        absurd (not_allow _ (unclassified_change_set-refuses policy _ _) e)
    judge-allow r passes classifies (err (ChangeSetUnavailable.version_too_new found understood))
          usable e =
        absurd (not_allow _ refl e)

    report-allow :
        (r : PreflightReport)
        → baseline_verdict baseline capabilities (some r) ≡ none
        → judge_report policy capabilities r ≡ PolicyDecision.allow n
        → Certified policy baseline capabilities (some r) n
    report-allow r passes e = elim (Bool-cases capabilities.risk_tier) [
      | inl classifies ↦
          judge-allow r passes classifies (usable_change_set r) refl
            (sym (judge_report-classifies policy capabilities r classifies) ∙ e)
      | inr silent ↦ absurd (not_allow _ (judge_report-silent policy capabilities r silent) e)
    ]

    policy-allow :
        (report : Option PreflightReport)
        → baseline_verdict baseline capabilities report ≡ none
        → judge_policy (some policy) capabilities report ≡ PolicyDecision.allow n
        → Certified policy baseline capabilities report n
    unfolding judge_policy
    policy-allow none passes e = absurd (not_allow _ refl e)
    policy-allow (some r) passes e = report-allow r passes e

    -- Under a policy, a deploy is allowed only if the baseline passes, the adapter classifies, its
    -- report carries a change-set that this build can read, and every change in it is of a known
    -- tier that the policy names as auto-apply; the count is that of the changes.
    pub evaluate-Certified :
        (report : Option PreflightReport)
        → evaluate (some policy) baseline capabilities report ≡ PolicyDecision.allow n
        → Certified policy baseline capabilities report n
    evaluate-Certified report e =
        elim (Option-cases (baseline_verdict baseline capabilities report)) [
          | inl passes ↦
              policy-allow report passes
                (sym (evaluate-passes (some policy) baseline capabilities report passes) ∙ e)
          | inr (reason, refused) ↦ absurd (
              not_allow _ refl (
                sym (evaluate-refused (some policy) baseline capabilities report reason refused)
                ∙ e))
        ]
