-- ===== src/MultiHost/Batches.antt =====
-- How the inventory is cut into batches: multi_host.rs. A host's overrides are free-form settings and
-- are left out.
use fraisier_core.Common.{ℕ, zero, suc, String, List, [], ◌∷◌}
use fraisier_core.Adapters.Context.{HostId}

pub record HostEntry : Type 0 where
  pub host : HostId
  pub address : String

pub data RolloutStrategy : Type 0 where
  all_at_once : RolloutStrategy
  rolling : ℕ → RolloutStrategy

-- `size.max(1)`, as the size less one.
abbrev beyond_one : ℕ → ℕ
beyond_one zero = 0
beyond_one (suc size) = size

-- `chunks(n)`: what fills the open chunk, which has room left, and the chunks behind it.
unfoldable pub split_chunks {ℓ} : {A : Type ℓ} → ℕ → ℕ → List A → List A × List (List A)
split_chunks more room [] = ([], [])
split_chunks more zero (x ∷ xs) =
    let (chunk, chunks) = split_chunks more more xs in ([], (x ∷ chunk) ∷ chunks)
split_chunks more (suc room) (x ∷ xs) =
    let (chunk, chunks) = split_chunks more room xs in (x ∷ chunk, chunks)

-- `chunks(n)`, for chunks of one more than `more`.
unfoldable pub chunks {ℓ} : {A : Type ℓ} → ℕ → List A → List (List A)
chunks more [] = []
chunks more (x ∷ xs) = let (chunk, rest) = split_chunks more more xs in (x ∷ chunk) ∷ rest

unfoldable pub plan_batches : RolloutStrategy → List HostEntry → List (List HostEntry)
plan_batches RolloutStrategy.all_at_once inventory = inventory ∷ []
plan_batches (RolloutStrategy.rolling size) inventory = chunks (beyond_one size) inventory
