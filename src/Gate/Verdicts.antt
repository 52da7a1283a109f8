-- ===== src/Gate/Verdicts.antt =====
-- What `evaluate` of policy.rs decides.
use mathlib.Core.List.{Memᴰ}
use fraisier_core.Common.{
  [], ℕ, ◌≤◌, ◌<◌, ◌≡◌, ◌≢◌, sym, ◌∙◌, ap, inl, inr, String, true, false, Option, none, some, List,
  map, arith, Bool-cases, All, All-map, filter, length, ok,
}
use fraisier_core.Gate.Report.{SchemaChange, ChangeSet, PreflightReport, usable_change_set}
use fraisier_core.Gate.Rules.{PolicyAction, Policy, restrictiveness, action_for, worst}
use fraisier_core.Gate.Decision.{PolicyReason, PolicyDecision, for_change, conclude, assemble}
use fraisier_core.Gate.Evaluate.{
  Capabilities, Baseline, baseline_verdict, triggers_of, judge, judge_report, judge_policy,
  evaluate,
}
use fraisier_core.Gate.Worst.{
  worst-All, worst-attained, worst-triggers_of, is_held, reasons-triggers_of,
  restrictiveness-injective,
}

module _ (policy : Policy) (changes : List SchemaChange) where
  -- Some change has the action.
  abbrev pub Has : PolicyAction → Type 0
  Has action = (c : SchemaChange) × Memᴰ c changes × (action_for policy c ≡ action)

  -- The reasons of the changes that are not auto-apply, in the adapter's order.
  abbrev pub held_reasons : List PolicyReason
  held_reasons = map for_change (filter (is_held policy) changes)

  -- The decision that a policy owes to a list of changes.
  pub data Decides : PolicyDecision → Type 0 where
    allows :
        All (λ c. action_for policy c ≡ PolicyAction.auto_apply) changes
        → Decides (PolicyDecision.allow (length changes))
    holds :
        All (λ c. restrictiveness (action_for policy c) ≤ 1) changes
        → Has PolicyAction.require_approval
        → policy.has_approval_hook ≡ true
        → Decides (PolicyDecision.needs_approval held_reasons)
    unhooked :
        (reason : String)
        → All (λ c. restrictiveness (action_for policy c) ≤ 1) changes
        → Has PolicyAction.require_approval
        → policy.has_approval_hook ≡ false
        → Decides (PolicyDecision.deny reason held_reasons)
    denies :
        (reason : String)
        → Has PolicyAction.deny
        → Decides (PolicyDecision.deny reason held_reasons)

  le_zero :
      (c : SchemaChange)
      → restrictiveness (action_for policy c) ≤ 0
      → action_for policy c ≡ PolicyAction.auto_apply
  le_zero c h =
      restrictiveness-injective (action_for policy c) PolicyAction.auto_apply (omega (arith, h))

  attained :
      (a : PolicyAction)
      → a ≢ PolicyAction.auto_apply
      → worst (map (action_for policy) changes) ≡ a
      → Has a
  attained a other e = elim (worst-attained (action_for policy) changes) [
    | inl auto ↦ absurd (other (sym e ∙ auto))
    | inr (c, m, same) ↦ (c, m, same ∙ e)
  ]

  distinct : (a b : PolicyAction) → restrictiveness b < restrictiveness a → a ≢ b
  distinct a b h e = omega (arith, h, ap restrictiveness e)

  conclude-Decides :
      (a : PolicyAction) (count : ℕ) (named : String)
      → worst (map (action_for policy) changes) ≡ a
      → Decides (conclude policy a count named held_reasons (length changes))
  unfolding conclude
  conclude-Decides PolicyAction.auto_apply count named e =
      allows
        (All-map _ _ le_zero changes (worst-All (action_for policy) 0 changes (rw e (omega arith))))
  conclude-Decides PolicyAction.require_approval count named e =
      let bounded = worst-All (action_for policy) 1 changes (rw e (omega arith)) in
      let required =
        attained PolicyAction.require_approval
          (distinct PolicyAction.require_approval PolicyAction.auto_apply (omega arith)) e in
      elim (Bool-cases policy.has_approval_hook) [
        | inl hook ↦ simp hook (holds bounded required hook)
        | inr no_hook ↦ simp no_hook (unhooked _ bounded required no_hook)
      ]
  conclude-Decides PolicyAction.deny count named e = denies _ (
      attained PolicyAction.deny (distinct PolicyAction.deny PolicyAction.auto_apply (omega arith))
        e)

  pub assemble-Decides : Decides (assemble policy (triggers_of policy changes) (length changes))
  unfolding assemble
  assemble-Decides =
      rw (reasons-triggers_of policy changes)
        (conclude-Decides _ _ _ (sym (worst-triggers_of policy changes)))

pub evaluate-passes :
    (policy : Option Policy) (baseline : Baseline) (capabilities : Capabilities)
    (report : Option PreflightReport)
    → baseline_verdict baseline capabilities report ≡ none
    → evaluate policy baseline capabilities report ≡ judge_policy policy capabilities report
unfolding evaluate
evaluate-passes policy baseline capabilities report passes = rw (passes, evaluate)

pub evaluate-refused :
    (policy : Option Policy) (baseline : Baseline) (capabilities : Capabilities)
    (report : Option PreflightReport) (reason : String)
    → baseline_verdict baseline capabilities report ≡ some reason
    → evaluate policy baseline capabilities report ≡ PolicyDecision.deny reason []
unfolding evaluate
evaluate-refused policy baseline capabilities report reason refused = rw (refused, evaluate)

pub judge_report-classifies :
    (policy : Policy) (capabilities : Capabilities) (report : PreflightReport)
    → capabilities.risk_tier ≡ true
    → judge_report policy capabilities report ≡ judge policy (usable_change_set report)
unfolding judge_report
judge_report-classifies policy capabilities report classifies = rw classifies

-- Where the baseline passes, and the report carries a change-set that this build can read from an
-- adapter that classifies, the decision is the one that the policy owes to the changes: an approval
-- is asked for only if no change is denied, some change requires it and a hook is configured; and
-- every decision but an allowance carries the reason of each change that is not auto-apply, in the
-- adapter's order.
pub evaluate-Decides :
    (policy : Policy) (baseline : Baseline) (capabilities : Capabilities) (report : PreflightReport)
    (change_set : ChangeSet)
    → baseline_verdict baseline capabilities (some report) ≡ none
    → capabilities.risk_tier ≡ true
    → usable_change_set report ≡ ok change_set
    → Decides policy change_set.changes (evaluate (some policy) baseline capabilities (some report))
unfolding judge_policy judge
evaluate-Decides policy baseline capabilities report change_set passes classifies usable =
    rw
      (
        evaluate-passes (some policy) baseline capabilities (some report) passes,
        judge_report-classifies policy capabilities report classifies,
        usable,
      )
      (assemble-Decides policy change_set.changes)
