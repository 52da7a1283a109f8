-- ===== src/Gate/Tier.antt =====
-- `RiskTier` of crates/fraisier-core/src/adapter_axes.rs, its names and its order.
pub mod Names
use fraisier_core.Common.{
  ℕ, String, Option, none, some, List, [], ◌∷◌, map, leb, str_eq, if◌then◌else◌, format, join,
  Result, ok, err,
}

-- `enum RiskTier`
pub data RiskTier : Type 0 where
  additive : RiskTier
  reversible : RiskTier
  lock_risky : RiskTier
  destructive : RiskTier
  irreversible : RiskTier

-- The derived order.
abbrev pub severity : RiskTier → ℕ
severity RiskTier.additive = 0
severity RiskTier.reversible = 1
severity RiskTier.lock_risky = 2
severity RiskTier.destructive = 3
severity RiskTier.irreversible = 4

-- `RiskTier::ALL`
abbrev pub all_tiers : List RiskTier
all_tiers =
    RiskTier.additive ∷ RiskTier.reversible ∷ RiskTier.lock_risky ∷ RiskTier.destructive
    ∷ RiskTier.irreversible ∷ []

-- `RiskTier::as_str`
unfoldable pub as_str : RiskTier → String
as_str RiskTier.additive = "additive"
as_str RiskTier.reversible = "reversible"
as_str RiskTier.lock_risky = "lock_risky"
as_str RiskTier.destructive = "destructive"
as_str RiskTier.irreversible = "irreversible"

-- `struct UnknownRiskTier`
pub record UnknownRiskTier : Type 0 where
  pub name : String

-- `impl Display for UnknownRiskTier`
unfoldable pub show_unknown : UnknownRiskTier → String
show_unknown unknown = format (
    "unknown risk tier '"
    ∷ unknown.name
    ∷ "'; expected one of: "
    ∷ join ", " (map as_str all_tiers)
    ∷ [])

unfoldable pub find_named : String → List RiskTier → Result UnknownRiskTier RiskTier
find_named name [] = err (record { name = name })
find_named name (tier ∷ tiers) =
    let rest = find_named name tiers in if str_eq (as_str tier) name then ok tier else rest

-- `RiskTier::from_str`
unfoldable pub from_str : String → Result UnknownRiskTier RiskTier
unfolding find_named
from_str name = find_named name all_tiers

-- `Iterator::max` over tiers.
unfoldable pub max_tier : List RiskTier → Option RiskTier
max_tier [] = none
max_tier (tier ∷ tiers) = elim (max_tier tiers) [
  | none ↦ some tier
  | some worse ↦ some (if leb (severity tier) (severity worse) then worse else tier)
]
