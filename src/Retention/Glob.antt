-- ===== src/Retention/Glob.antt =====
-- `matches` of crates/fraisier-db/src/retention.rs. A position in a text is the bytes from it on, and
-- the loop's `star` is what follows the last `*` with the part of the name from `star_n` on.
pub mod Language
pub mod Sound
pub mod Complete
use fraisier_core.Common.{
  ℕ, zero, suc, ◌+◌, ◌*◌, Bool, true, false, ◌&&◌, ◌||◌, Option, none, some, List, [], ◌∷◌, ◌==◌,
  length,
}

abbrev pub Bytes : Type 0
Bytes = List ℕ

abbrev pub asterisk : ℕ
asterisk = b'*'

-- `byte == b'?' || byte == name[n]`
abbrev pub accepts : ℕ → ℕ → Bool
accepts byte c = byte == b'?' || byte == c

-- `pattern[p..].iter().all(|&byte| byte == b'*')`
unfoldable pub all_stars : Bytes → Bool
all_stars [] = true
all_stars (byte ∷ rest) = byte == asterisk && all_stars rest

-- The last arm of the loop: back to the last `*`, which swallows one byte more.
unfoldable pub retry :
    (Bytes → Bytes → Option (Bytes × Bytes) → Bool) → Option (Bytes × Bytes) → Bool
retry again none = false
retry again (some (after, [])) = false
retry again (some (after, d ∷ rest)) = again after rest (some (after, rest))

-- The loop. Without fuel it would answer as for a mismatch.
unfoldable pub loop : ℕ → Bytes → Bytes → Option (Bytes × Bytes) → Bool
loop fuel p [] star = all_stars p
loop zero p (c ∷ n) star = false
loop (suc fuel) [] (c ∷ n) star = retry (loop fuel) star
loop (suc fuel) (byte ∷ p) (c ∷ n) star = elim (byte == asterisk) [
  | true ↦ loop fuel p (c ∷ n) (some (p, c ∷ n))
  | false ↦ elim (accepts byte c) [ true ↦ loop fuel p n star | false ↦ retry (loop fuel) star ]
]

-- The rounds: each shortens the pattern or the name, or what is left of the name after the star.
abbrev pub rounds : Bytes → Bytes → ℕ
rounds pattern name = (length name + 2) * (length pattern + length name + 1)

-- `matches`
unfoldable pub matches : Bytes → Bytes → Bool
matches pattern name = loop (rounds pattern name) pattern name none
