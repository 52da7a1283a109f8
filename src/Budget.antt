-- ===== src/Budget.antt =====
-- The connection budget of a blue-green deploy: crates/fraisier-core/src/connection_budget.rs. The
-- numbers are of type `u32`.
mod Samples
use fraisier_core.Common.{
  ℕ, ◌+◌, ◌-◌, ◌≤◌, ◌<◌, ◌≡◌, ◌↔◌, String, Bool, true, false, List, [], ◌∷◌, arith, ltb,
  if◌then◌else◌, format, to_string,
}

-- `struct BudgetSnapshot`
pub record BudgetSnapshot : Type 0 where
  pub max_connections : ℕ
  pub current : ℕ

-- `enum BudgetVerdict`
pub data BudgetVerdict : Type 0 where
  ok : BudgetVerdict
  warn : (message : String) → BudgetVerdict
  refuse : (message : String) → BudgetVerdict

-- `u32::MAX`
abbrev pub u32_max : ℕ
u32_max = 4294967295

-- `u32::saturating_add`
unfoldable pub saturating_add : ℕ → ℕ → ℕ
saturating_add a b = if ltb u32_max (a + b) then u32_max else a + b

-- `evaluate`, where `saturating_sub` is the subtraction of natural numbers.
unfoldable pub evaluate : BudgetSnapshot → ℕ → ℕ → BudgetVerdict
evaluate snapshot green_pool margin =
    let projected = saturating_add snapshot.current green_pool in
    let most = snapshot.max_connections in
    if ltb most projected
    then BudgetVerdict.refuse (
        format (
          "blue-green would need "
          ∷ to_string projected
          ∷ " connections (current "
          ∷ to_string snapshot.current
          ∷ " + green pool "
          ∷ to_string green_pool
          ∷ ") but max_connections is "
          ∷ to_string most
          ∷ ": refusing before the swap (raise max_connections or shrink the pool)"
          ∷ []))
    else if ltb (most - margin) projected
    then BudgetVerdict.warn (
        format (
          "blue-green will use "
          ∷ to_string projected
          ∷ "/"
          ∷ to_string most
          ∷ " connections — within the "
          ∷ to_string margin
          ∷ "-connection safety margin"
          ∷ []))
    else BudgetVerdict.ok

abbrev pub is_refused : BudgetVerdict → Bool
is_refused (BudgetVerdict.refuse message) = true
is_refused _ = false

abbrev pub is_fine : BudgetVerdict → Bool
is_fine BudgetVerdict.ok = true
is_fine _ = false

-- Below the largest `u32`, the verdict is a refusal exactly if the two fleets together need more
-- connections than the server allows, and it is fine exactly if they leave the margin free.
pub evaluate-thresholds :
    (snapshot : BudgetSnapshot) (green_pool margin : ℕ)
    → snapshot.max_connections < u32_max
    → ((is_refused (evaluate snapshot green_pool margin) ≡ true)
        ↔ (snapshot.max_connections < snapshot.current + green_pool))
      × ((is_fine (evaluate snapshot green_pool margin) ≡ true)
          ↔ (snapshot.current + green_pool ≤ snapshot.max_connections - margin))
unfolding evaluate saturating_add
evaluate-thresholds snapshot green_pool margin bounded = ground arith
