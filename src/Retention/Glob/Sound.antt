-- ===== src/Retention/Glob/Sound.antt =====
-- A name that the loop of `matches` accepts is one that the pattern stands for.
use fraisier_core.Common.{
  ℕ, zero, suc, ◌≡◌, refl, ◌⊎◌, inl, inr, Bool, true, false, Option, none, some, [], ◌∷◌, arith,
  ◌==◌,
}
use fraisier_core.Retention.Glob.{Bytes, asterisk, accepts, all_stars, retry, loop}
use fraisier_core.Retention.Glob.Language.{
  Matches, done, one, nothing, more, Suffix, whole, later, star_takes,
}

-- The rest of the pattern matches from a place after the last `*` on, further on than the place that
-- the loop is trying.
abbrev pub Beyond : Option (Bytes × Bytes) → Type 0
Beyond none = ⊥
Beyond (some (after, [])) = ⊥
Beyond (some (after, d ∷ rest)) = (s : Bytes) × Suffix s rest × Matches after s

all_stars-Matches : (p : Bytes) → all_stars p ≡ true → Matches p []
unfolding all_stars
all_stars-Matches [] h = done
all_stars-Matches (byte ∷ p) h = nothing (ground arith) (all_stars-Matches p (ground arith))

Beyond-widen :
    (after rest : Bytes)
    → Matches after rest ⊎ Beyond (some (after, rest))
    → (s : Bytes) × Suffix s rest × Matches after s
Beyond-widen after rest (inl m) = (rest, whole, m)
Beyond-widen after [] (inr b) = elim b [ ]
Beyond-widen after (e ∷ rest) (inr (s, suffix, m)) = (s, later suffix, m)

retry-Beyond :
    (again : Bytes → Bytes → Option (Bytes × Bytes) → Bool)
    → ((p n : Bytes) (star : Option (Bytes × Bytes))
        → again p n star ≡ true
        → Matches p n ⊎ Beyond star)
    → (star : Option (Bytes × Bytes)) → retry again star ≡ true
    → Beyond star
unfolding retry
retry-Beyond again ih none h = cc
retry-Beyond again ih (some (after, [])) h = cc
retry-Beyond again ih (some (after, d ∷ rest)) h =
    Beyond-widen after rest (ih after rest (some (after, rest)) h)

-- The star just met: what follows it matches here or further on.
met-Matches :
    (byte c : ℕ) (p n : Bytes)
    → (byte == asterisk) ≡ true
    → Matches p (c ∷ n) ⊎ Beyond (some (p, c ∷ n))
    → Matches (byte ∷ p) (c ∷ n)
met-Matches byte c p n e (inl m) = nothing e m
met-Matches byte c p n e (inr (s, suffix, m)) = more e (star_takes e suffix (nothing e m))

arms-Matches :
    (again : Bytes → Bytes → Option (Bytes × Bytes) → Bool)
    → ((p n : Bytes) (star : Option (Bytes × Bytes))
        → again p n star ≡ true
        → Matches p n ⊎ Beyond star)
    → (byte c : ℕ) (p n : Bytes) (star : Option (Bytes × Bytes)) (is_star accepted : Bool)
    → (byte == asterisk) ≡ is_star
    → accepts byte c ≡ accepted
    → elim is_star [
      | true ↦ again p (c ∷ n) (some (p, c ∷ n))
      | false ↦ elim accepted [ true ↦ again p n star | false ↦ retry again star ]
    ]
      ≡ true
    → Matches (byte ∷ p) (c ∷ n) ⊎ Beyond star
arms-Matches again ih byte c p n star true accepted e a h =
    inl (met-Matches byte c p n e (ih p (c ∷ n) (some (p, c ∷ n)) h))
arms-Matches again ih byte c p n star false true e a h = elim (ih p n star h) [
  | inl m ↦ inl (one e a m)
  | inr b ↦ inr b
]
arms-Matches again ih byte c p n star false false e a h = inr (retry-Beyond again ih star h)

pub loop-Matches :
    (fuel : ℕ) (p n : Bytes) (star : Option (Bytes × Bytes))
    → loop fuel p n star ≡ true
    → Matches p n ⊎ Beyond star
unfolding loop
loop-Matches fuel p [] star h = inl (all_stars-Matches p h)
loop-Matches zero p (c ∷ n) star h = cc
loop-Matches (suc fuel) [] (c ∷ n) star h =
    inr (retry-Beyond (loop fuel) (loop-Matches fuel) star h)
loop-Matches (suc fuel) (byte ∷ p) (c ∷ n) star h =
    arms-Matches (loop fuel) (loop-Matches fuel) byte c p n star _ _ refl refl h
