-- ===== src/Gate/Rules.antt =====
-- The resolved policy of crates/fraisier-core/src/policy.rs. The map of actions is an association list.
use fraisier_core.Common.{
  ℕ, Bool, false, Option, none, some, List, [], ◌∷◌, ◌++◌, map, leb, ◌==◌, if◌then◌else◌,
}
use fraisier_core.Gate.Tier.{RiskTier, severity}
use fraisier_core.Gate.Report.{SchemaChange}

-- `enum PolicyAction`
pub data PolicyAction : Type 0 where
  auto_apply : PolicyAction
  require_approval : PolicyAction
  deny : PolicyAction

-- The derived order.
abbrev pub restrictiveness : PolicyAction → ℕ
restrictiveness PolicyAction.auto_apply = 0
restrictiveness PolicyAction.require_approval = 1
restrictiveness PolicyAction.deny = 2

-- The derived equality.
abbrev pub is_action : PolicyAction → PolicyAction → Bool
is_action a b = restrictiveness a == restrictiveness b

-- `enum UnclassifiedAction`
pub data UnclassifiedAction : Type 0 where
  deny : UnclassifiedAction
  require_approval : UnclassifiedAction

-- `impl From<UnclassifiedAction> for PolicyAction`
abbrev pub action_of : UnclassifiedAction → PolicyAction
action_of UnclassifiedAction.deny = PolicyAction.deny
action_of UnclassifiedAction.require_approval = PolicyAction.require_approval

-- `struct Policy`
pub record Policy : Type 0 where
  pub actions : List (RiskTier × PolicyAction)
  pub unclassified : UnclassifiedAction
  pub has_approval_hook : Bool

-- `Policy::new`
unfoldable pub new : List (RiskTier × PolicyAction) → UnclassifiedAction → Policy
new actions unclassified = record {
  actions = actions;
  unclassified = unclassified;
  has_approval_hook = false;
}

-- `Policy::with_approval_hook`
unfoldable pub with_approval_hook : Bool → Policy → Policy
with_approval_hook present policy = record policy { has_approval_hook = present }

-- `DEFAULT_AUTO_APPLY`
abbrev default_auto_apply : List RiskTier
default_auto_apply = RiskTier.additive ∷ RiskTier.reversible ∷ []

-- `DEFAULT_REQUIRE_APPROVAL`
abbrev default_require_approval : List RiskTier
default_require_approval = RiskTier.lock_risky ∷ RiskTier.destructive ∷ RiskTier.irreversible ∷ []

-- `Policy::default`
unfoldable pub default_policy : Policy
unfolding new
default_policy =
    new
      (map (λ tier. (tier, PolicyAction.auto_apply)) default_auto_apply
        ++ map (λ tier. (tier, PolicyAction.require_approval)) default_require_approval)
      UnclassifiedAction.deny

-- `actions.get(&tier)`
unfoldable pub get_action : RiskTier → List (RiskTier × PolicyAction) → Option PolicyAction
get_action tier [] = none
get_action tier ((other, action) ∷ actions) =
    let later = get_action tier actions in
    if severity other == severity tier then some action else later

abbrev pub or_deny : Option PolicyAction → PolicyAction
or_deny none = PolicyAction.deny
or_deny (some action) = action

-- `Policy::action_for`
unfoldable pub action_for : Policy → SchemaChange → PolicyAction
action_for policy change = elim change.tier [
  | none ↦ action_of policy.unclassified
  | some tier ↦ or_deny (get_action tier policy.actions)
]

-- `worst`
unfoldable pub worst : List PolicyAction → PolicyAction
worst [] = PolicyAction.auto_apply
worst (action ∷ actions) =
    let rest = worst actions in
    if leb (restrictiveness action) (restrictiveness rest) then rest else action
