-- ===== src/Gate/Tier/Names.antt =====
-- The names of the risk tiers: `as_str` and `from_str` of adapter_axes.rs.
use fraisier_core.Common.{◌≡◌, refl, ◌↔◌, String, List, [], ◌∷◌, arith, eq_iff, ok}
use fraisier_core.Gate.Tier.{RiskTier, all_tiers, as_str, find_named, from_str}

find_named-ok :
    (name : String) (tiers : List RiskTier) (tier : RiskTier)
    → find_named name tiers ≡ ok tier
    → name ≡ as_str tier
unfolding find_named
find_named-ok name [] tier e = ground arith
find_named-ok name (t ∷ tiers) tier e =
    ground (arith, find_named-ok name tiers tier, eq_iff (as_str t) name)

as_str-from_str : (tier : RiskTier) → from_str (as_str tier) ≡ ok tier
unfolding from_str find_named as_str
as_str-from_str RiskTier.additive = refl
as_str-from_str RiskTier.reversible = refl
as_str-from_str RiskTier.lock_risky = refl
as_str-from_str RiskTier.destructive = refl
as_str-from_str RiskTier.irreversible = refl

-- `from_str` reads the name of each tier back, and nothing else as that tier.
pub from_str-as_str :
    (name : String) (tier : RiskTier) → (from_str name ≡ ok tier) ↔ (name ≡ as_str tier)
unfolding from_str
from_str-as_str name tier = (find_named-ok name all_tiers tier, λ e. rw e (as_str-from_str tier))
