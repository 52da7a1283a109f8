-- ===== src/Budget/Samples.antt =====
-- A server with a hundred connections: tests of the budget, and its theorem at it.
use fraisier_core.Common.{◌+◌, ◌-◌, ◌≤◌, ◌<◌, ◌≡◌, ◌↔◌, refl, true, arith}
use fraisier_core.Budget.{
  BudgetSnapshot, BudgetVerdict, saturating_add, evaluate, is_refused, is_fine, evaluate-thresholds,
}

abbrev server : BudgetSnapshot
server = record { max_connections = 100; current = 60 }

fits : evaluate server 20 10 ≡ BudgetVerdict.ok
unfolding evaluate saturating_add
fits = refl

refused : is_refused (evaluate server 50 10) ≡ true
unfolding evaluate saturating_add
refused = refl

evaluate-thresholds_example :
    ((is_refused (evaluate server 50 10) ≡ true) ↔ (100 < 60 + 50))
    × ((is_fine (evaluate server 50 10) ≡ true) ↔ (60 + 50 ≤ 100 - 10))
evaluate-thresholds_example = evaluate-thresholds server 50 10 (omega arith)
