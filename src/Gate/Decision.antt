-- ===== src/Gate/Decision.antt =====
-- What the gate answers, and how it folds the actions of the changes into one decision:
-- crates/fraisier-core/src/policy.rs.
use fraisier_core.Common.{
  ℕ, ◌-◌, String, not, Option, none, some, List, [], ◌∷◌, ◌++◌, map, length, take, filter,
  filter_map, ltb, if◌then◌else◌, format, join, to_string,
}
use fraisier_core.Gate.Tier.{RiskTier, as_str, max_tier}
use fraisier_core.Gate.Report.{SchemaChange}
use fraisier_core.Gate.Rules.{PolicyAction, UnclassifiedAction, Policy, is_action, worst}

-- `struct PolicyReason`
pub record PolicyReason : Type 0 where
  pub tier : Option RiskTier
  pub object : String
  pub kind : String
  pub migration : Option String

-- `PolicyReason::for_change`
abbrev pub for_change : SchemaChange → PolicyReason
for_change change = record {
  tier = change.tier;
  object = change.object;
  kind = change.kind;
  migration = change.migration;
}

-- `PolicyReason::for_change_set`
unfoldable pub for_change_set : String → PolicyReason
for_change_set kind = record {
  tier = none;
  object = "all pending migrations";
  kind = kind;
  migration = none;
}

-- `enum PolicyDecision`
pub data PolicyDecision : Type 0 where
  allow : (changes : ℕ) → PolicyDecision
  needs_approval : (reasons : List PolicyReason) → PolicyDecision
  deny : (reason : String) (reasons : List PolicyReason) → PolicyDecision

-- `struct ApprovalRequest`
pub record ApprovalRequest : Type 0 where
  pub fraise : String
  pub environment : String
  pub reasons : List PolicyReason
  pub worst_tier : Option RiskTier

-- `ApprovalRequest::new`
unfoldable pub new_request : String → String → List PolicyReason → ApprovalRequest
new_request fraise environment reasons = record {
  fraise = fraise;
  environment = environment;
  reasons = reasons;
  worst_tier = max_tier (filter_map (λ reason. reason.tier) reasons);
}

-- `enum ApprovalVerdict`
pub data ApprovalVerdict : Type 0 where
  approved : (approver : String) → ApprovalVerdict
  denied : (reason : String) → ApprovalVerdict

tier_name : Option RiskTier → String
unfolding as_str
tier_name none = "unclassified"
tier_name (some tier) = as_str tier

named_reason : PolicyReason → String
unfolding tier_name
named_reason reason =
    format (reason.object ∷ " (" ∷ reason.kind ∷ ", " ∷ tier_name reason.tier ∷ ")" ∷ [])

-- `summarise`
unfoldable pub summarise : List PolicyReason → String
unfolding named_reason
summarise reasons =
    let rendered = map named_reason (take 3 reasons) in
    join ", " (
      if ltb 3 (length reasons)
      then rendered ++ format ("and " ∷ to_string (length reasons - 3) ∷ " more" ∷ []) ∷ []
      else rendered)

-- The actions that `assemble` is given, with the reason of each.
abbrev pub Triggers : Type 0
Triggers = List (PolicyAction × PolicyReason)

-- The last `match` of `assemble`.
unfoldable pub conclude :
    Policy → PolicyAction → ℕ → String → List PolicyReason → ℕ → PolicyDecision
conclude policy PolicyAction.auto_apply count named reasons changes = PolicyDecision.allow changes
conclude policy PolicyAction.require_approval count named reasons changes =
    if not policy.has_approval_hook
    then PolicyDecision.deny
        (format (
          "approval is required for " ∷ named
          ∷ ", but no approval hook is configured (`[policy].approval_command`)" ∷ []))
        reasons
    else PolicyDecision.needs_approval reasons
conclude policy PolicyAction.deny count named reasons changes =
    PolicyDecision.deny
      (format (
        "the policy refuses "
        ∷ to_string count
        ∷ " of "
        ∷ to_string changes
        ∷ " planned schema change(s): "
        ∷ named
        ∷ []))
      reasons

-- `assemble`
unfoldable pub assemble : Policy → Triggers → ℕ → PolicyDecision
assemble policy triggers changes =
    let outcome = worst (map (λ trigger. trigger.0) triggers) in
    let responsible =
      map (λ trigger. trigger.1) (filter (λ trigger. is_action trigger.0 outcome) triggers) in
    conclude policy outcome (length responsible) (summarise responsible)
      (map (λ trigger. trigger.1) triggers) changes

-- `unclassified_change_set`
unfoldable pub unclassified_change_set : Policy → String → String → PolicyDecision
unclassified_change_set policy cause kind = elim policy.unclassified [
  | UnclassifiedAction.deny ↦ PolicyDecision.deny cause (for_change_set kind ∷ [])
  | UnclassifiedAction.require_approval ↦
      assemble policy ((PolicyAction.require_approval, for_change_set kind) ∷ []) 0
]
