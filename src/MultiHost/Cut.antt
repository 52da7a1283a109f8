-- ===== src/MultiHost/Cut.antt =====
-- What the batches of a rollout are: multi_host.rs.
use mathlib.Core.List.{append-nil}
use fraisier_core.Common.{ℕ, zero, suc, ◌≤◌, ◌≡◌, refl, ap, List, [], ◌∷◌, ◌++◌, length, arith}
use fraisier_core.MultiHost.Batches.{HostEntry, RolloutStrategy, split_chunks, chunks, plan_batches}

module _ {ℓ} {A : Type ℓ} where
  abbrev pub concat : List (List A) → List A
  concat [] = []
  concat (xs ∷ xss) = xs ++ concat xss

  -- Chunks of `size` each, but for the last one, which is not empty and no longer.
  abbrev pub Chunked : (size : ℕ) → List (List A) → Type 0
  Chunked size [] = Unit
  Chunked size (last ∷ []) = (1 ≤ length last) × (length last ≤ size)
  Chunked size (chunk ∷ next ∷ rest) = (length chunk ≡ size) × Chunked size (next ∷ rest)

  -- The open chunk fills its room, or nothing is behind it.
  abbrev Filled : (room more : ℕ) → List A × List (List A) → Type 0
  Filled room more (chunk, []) = length chunk ≤ room
  Filled room more (chunk, next ∷ rest) = (length chunk ≡ room) × Chunked (suc more) (next ∷ rest)

  closed :
      (x : A) (more : ℕ) (split : List A × List (List A))
      → Filled more more split
      → Chunked (suc more) ((x ∷ split.0) ∷ split.1)
  closed x more (chunk, []) filled = (omega arith, omega (arith, filled))
  closed x more (chunk, next ∷ rest) filled = (omega (arith, filled.0), filled.1)

  opened :
      (x : A) (room more : ℕ) (split : List A × List (List A))
      → Filled room more split
      → Filled (suc room) more (x ∷ split.0, split.1)
  opened x room more (chunk, []) filled = omega (arith, filled)
  opened x room more (chunk, next ∷ rest) filled = (omega (arith, filled.0), filled.1)

  split_chunks-Filled : (more room : ℕ) (xs : List A) → Filled room more (split_chunks more room xs)
  unfolding split_chunks
  split_chunks-Filled more room [] = omega arith
  split_chunks-Filled more zero (x ∷ xs) =
      (refl, closed x more (split_chunks more more xs) (split_chunks-Filled more more xs))
  split_chunks-Filled more (suc room) (x ∷ xs) =
      opened x room more (split_chunks more room xs) (split_chunks-Filled more room xs)

  split_chunks-concat :
      (more room : ℕ) (xs : List A)
      → (split_chunks more room xs).0 ++ concat (split_chunks more room xs).1 ≡ xs
  unfolding split_chunks
  split_chunks-concat more room [] = refl
  split_chunks-concat more zero (x ∷ xs) = ap (λ ys. x ∷ ys) (split_chunks-concat more more xs)
  split_chunks-concat more (suc room) (x ∷ xs) =
      ap (λ ys. x ∷ ys) (split_chunks-concat more room xs)

  pub chunks-Chunked : (more : ℕ) (xs : List A) → Chunked (suc more) (chunks more xs)
  unfolding chunks
  chunks-Chunked more [] = tt
  chunks-Chunked more (x ∷ xs) =
      closed x more (split_chunks more more xs) (split_chunks-Filled more more xs)

  pub concat-chunks : (more : ℕ) (xs : List A) → concat (chunks more xs) ≡ xs
  unfolding chunks
  concat-chunks more [] = refl
  concat-chunks more (x ∷ xs) = ap (λ ys. x ∷ ys) (split_chunks-concat more more xs)

-- The largest batch that a strategy allows: the whole inventory, or the size asked for, at least one.
abbrev pub Allowed : RolloutStrategy → List HostEntry → List (List HostEntry) → Type 0
Allowed RolloutStrategy.all_at_once inventory batches = batches ≡ inventory ∷ []
Allowed (RolloutStrategy.rolling zero) inventory batches = Chunked 1 batches
Allowed (RolloutStrategy.rolling (suc size)) inventory batches = Chunked (suc size) batches

-- The batches of a plan, one after the other, are the inventory in its order, so that every host is
-- advanced once; all at once they are a single batch, and rolling they all have the size asked for, at
-- least one, but for the last, which is not empty and no larger.
pub plan_batches-Allowed :
    (strategy : RolloutStrategy) (inventory : List HostEntry)
    → (concat (plan_batches strategy inventory) ≡ inventory)
      × Allowed strategy inventory (plan_batches strategy inventory)
unfolding plan_batches
plan_batches-Allowed RolloutStrategy.all_at_once inventory = (append-nil inventory, refl)
plan_batches-Allowed (RolloutStrategy.rolling zero) inventory =
    (concat-chunks 0 inventory, chunks-Chunked 0 inventory)
plan_batches-Allowed (RolloutStrategy.rolling (suc size)) inventory =
    (concat-chunks size inventory, chunks-Chunked size inventory)
