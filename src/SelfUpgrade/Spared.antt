-- ===== src/SelfUpgrade/Spared.antt =====
-- What a prune removes: swap.rs.
use mathlib.Core.List.{Perm}
use fraisier_core.Common.{ℕ, ◌≡◌, String, not, Option, List, map, drop, filter, Result, ok, err}
use fraisier_core.Retention.Policy.{Candidate}
use fraisier_core.Retention.Sort.{IsNewestFirst}
use fraisier_core.SelfUpgrade.Types.{Error, Fs}
use fraisier_core.SelfUpgrade.Layout.{Layout, active, collect, is_active_path}

module _ {W : Type 0} (fs : Fs W) (pid : String) (layout : Layout) where
  module _ (activated : Option String) where
    -- The paths of these that are not the active one.
    abbrev pub spare : List Candidate → List String
    spare cs =
        filter (λ path. not (is_active_path fs pid layout activated path)) (map (λ c. c.path) cs)

    abbrev Spares : List Candidate → Result Error (List String) × W → Type 0
    Spares cs (ok removed, w) = removed ≡ spare cs
    Spares cs (err e, w) = Unit

  -- What a prune that succeeded at `w` removed: of the files that it collected, in an order in which none
  -- is older than one behind it, those beyond the first `keep`, but for the active one.
  abbrev pub Pruned : (keep : ℕ) → W → Result Error (List String) × W → Type 0
  Pruned keep w (ok removed, w') =
      (activated : Option String) × (entries : List (Result String String)) × (found ranked : List
        Candidate)
      × (w₁ w₂ w₃ : W) × (active fs pid layout w ≡ (ok activated, w₁))
      × (fs.read_dir layout.bin_dir w₁ ≡ (ok entries, w₂))
      × (collect fs pid layout entries w₂ ≡ (ok found, w₃))
      × Perm ranked found
      × IsNewestFirst ranked
      × (removed ≡ spare activated (drop keep ranked))
  Pruned keep w (err e, w') = Unit
