-- ===== src/Retention/Glob/Complete.antt =====
-- A name that the pattern stands for is one that the loop of `matches` accepts, with the fuel that
-- `matches` gives it.
use fraisier_core.Common.{
  ℕ, zero, suc, ◌+◌, ◌*◌, ◌≤◌, ◌<◌, ◌≡◌, refl, ◌↔◌, ◌⊎◌, inl, inr, Bool, true, false, Option, none,
  some, [], ◌∷◌, arith, ◌==◌, length,
}
use native.Mathlib.Nat.{mul-le-mul_right}
use fraisier_core.Retention.Glob.{Bytes, asterisk, accepts, all_stars, retry, loop, rounds, matches}
use fraisier_core.Retention.Glob.Language.{
  Matches, one, nothing, more, Suffix, whole, later, Steps, stay, step, Steps-snoc, star_leaves,
  star_takes, Matches-shift,
}
use fraisier_core.Retention.Glob.Sound.{Beyond, loop-Matches}

-- The loop's place lies on the way from what follows the star to the name from `star_n` on, both of
-- them together shorter than `size`.
abbrev Place : ℕ → ℕ → Bytes → Bytes → Option (Bytes × Bytes) → Type 0
Place size most p n none = length n < most
Place size most p n (some (after, skipped)) =
    Steps after skipped p n × (length after + length skipped < size)

-- What the star may still swallow.
abbrev left : ℕ → Option (Bytes × Bytes) → ℕ
left most none = most
left most (some (after, skipped)) = length skipped

Steps-length :
    {p n p' n' : Bytes} → Steps p n p' n' → (length p' ≤ length p) × (length n' ≤ length n)
Steps-length stay = (ground arith, ground arith)
Steps-length (step e s) = let (a, b) = Steps-length s in (ground arith, ground arith)

left-le :
    (size most : ℕ) (p n : Bytes) (star : Option (Bytes × Bytes))
    → Place size most p n star
    → length n ≤ left most star
left-le size most p n none h = omega arith
left-le size most p n (some (after, skipped)) (steps, h) = let (a, b) = Steps-length steps in b

-- Rounds that are left when the star has `x` bytes to swallow and `y` bytes of the texts are to come.
rank_inner : (size a b x y : ℕ) → a ≤ b → x < y → a * size + x < b * size + y
rank_inner size a b x y h less = omega (arith, mul-le-mul_right size h)

rank_outer : (size a b x : ℕ) → a < b → x < size → a * size + x < b * size
rank_outer size a b x h less = omega (arith, mul-le-mul_right {m = suc a} size h)

Suffix-nil : (s : Bytes) → Suffix s [] → s ≡ []
Suffix-nil s whole = refl

Matches-nil : (p : Bytes) → Matches p [] → all_stars p ≡ true
unfolding all_stars
Matches-nil [] m = refl
Matches-nil (byte ∷ p) (nothing e m) = let rest = Matches-nil p m in ground arith

Beyond-reaches :
    (size most : ℕ) (p n : Bytes) (star : Option (Bytes × Bytes))
    → Place size most p n star
    → Beyond star
    → (s : Bytes) × Suffix s n × Matches p s
Beyond-reaches size most p n none place b = elim b [ ]
Beyond-reaches size most p n (some (after, [])) place b = elim b [ ]
Beyond-reaches size most p n (some (after, d ∷ rest)) (steps, h) (s, suffix, m) =
    Matches-shift steps (later suffix) m

Suffix-choice : (p n s : Bytes) → Suffix s n → Matches p s → Matches p n ⊎ Beyond (some (p, n))
Suffix-choice p n s whole m = inl m
Suffix-choice p (c ∷ n) s (later suffix) m = inr (s, suffix, m)

-- What the loop on some fuel does at a place where the rest of the name can still match.
abbrev Finds : ℕ → ℕ → ℕ → Type 0
Finds size most fuel =
    (p n : Bytes) (star : Option (Bytes × Bytes))
    → Place size most p n star
    → length p + length n < size
    → left most star * size + (length p + length n) ≤ fuel
    → Matches p n ⊎ Beyond star
    → loop fuel p n star ≡ true

retry-Finds :
    (size most fuel : ℕ)
    → Finds size most fuel
    → (p n : Bytes) (star : Option (Bytes × Bytes)) → Place size most p n star
    → left most star * size + (length p + length n) ≤ suc fuel
    → Beyond star
    → retry (loop fuel) star ≡ true
unfolding retry
retry-Finds size most fuel ih p n none place enough b = elim b [ ]
retry-Finds size most fuel ih p n (some (after, [])) place enough b = elim b [ ]
retry-Finds size most fuel ih p n (some (after, d ∷ rest)) (steps, fits) enough (s, suffix, m) =
    ih after rest (some (after, rest)) (stay, omega arith) (omega arith)
      (let less =
          rank_outer size (length rest) (length (d ∷ rest)) (length after + length rest)
            (omega arith) (omega arith) in
        omega arith)
      (Suffix-choice after rest s suffix m)

-- The same bytes further on with the same star.
Place-next :
    (size most : ℕ) (byte c : ℕ) (p n : Bytes) (star : Option (Bytes × Bytes))
    → (byte == asterisk) ≡ false
    → Place size most (byte ∷ p) (c ∷ n) star
    → Place size most p n star
Place-next size most byte c p n none e place = ground arith
Place-next size most byte c p n (some (after, skipped)) e (steps, fits) = (Steps-snoc steps e, fits)

-- What can match from a star on, whether from here or from the star before.
met-choice :
    (size most : ℕ) (byte : ℕ) (p n : Bytes) (star : Option (Bytes × Bytes))
    → (byte == asterisk) ≡ true
    → Place size most (byte ∷ p) n star
    → Matches (byte ∷ p) n ⊎ Beyond star
    → Matches p n ⊎ Beyond (some (p, n))
met-choice size most byte p n star e place (inl m) =
    let (s, suffix, m') = star_leaves e m in Suffix-choice p n s suffix m'
met-choice size most byte p n star e place (inr b) =
    let (s, suffix, m) = Beyond-reaches size most (byte ∷ p) n star place b in
    let (s', suffix', m') = star_leaves e (star_takes e suffix m) in Suffix-choice p n s' suffix' m'

one-tail :
    (byte c : ℕ) (p n : Bytes)
    → (byte == asterisk) ≡ false
    → Matches (byte ∷ p) (c ∷ n)
    → (accepts byte c ≡ true) × Matches p n
one-tail byte c p n e (one e' a m) = (a, m)
one-tail byte c p n e (nothing e' m) = cc
one-tail byte c p n e (more e' m) = cc

arms-Finds :
    (size most fuel : ℕ)
    → Finds size most fuel
    → (byte c : ℕ) (p n : Bytes) (star : Option (Bytes × Bytes)) (is_star accepted : Bool)
    → (byte == asterisk) ≡ is_star
    → accepts byte c ≡ accepted
    → Place size most (byte ∷ p) (c ∷ n) star
    → suc (length p) + suc (length n) < size
    → left most star * size + (suc (length p) + suc (length n)) ≤ suc fuel
    → Matches (byte ∷ p) (c ∷ n) ⊎ Beyond star
    → elim is_star [
      | true ↦ loop fuel p (c ∷ n) (some (p, c ∷ n))
      | false ↦ elim accepted [ true ↦ loop fuel p n star | false ↦ retry (loop fuel) star ]
    ]
      ≡ true
arms-Finds size most fuel ih byte c p n star true accepted e a place fits enough choice =
    let less =
      rank_inner size (suc (length n)) (left most star) (length p + suc (length n))
        (suc (length p) + suc (length n)) (left-le size most (byte ∷ p) (c ∷ n) star place)
        (omega arith) in
    ih p (c ∷ n) (some (p, c ∷ n)) (stay, omega arith) (omega arith) (omega arith)
      (met-choice size most byte p (c ∷ n) star e place choice)
arms-Finds size most fuel ih byte c p n star false true e a place fits enough choice =
    ih p n star (Place-next size most byte c p n star e place) (omega arith) (omega arith)
      (elim choice [ inl m ↦ inl ((one-tail byte c p n e m).1) | inr b ↦ inr b ])
arms-Finds size most fuel ih byte c p n star false false e a place fits enough (inl m) =
    let accepted = (one-tail byte c p n e m).0 in cc
arms-Finds size most fuel ih byte c p n star false false e a place fits enough (inr b) =
    retry-Finds size most fuel ih (byte ∷ p) (c ∷ n) star place enough b

-- With fuel for the rounds that are left, the loop finds every match.
loop-Finds : (size most fuel : ℕ) → Finds size most fuel
unfolding loop
loop-Finds size most fuel p [] star place fits enough (inl m) = Matches-nil p m
loop-Finds size most fuel p [] star place fits enough (inr b) =
    let (s, suffix, m) = Beyond-reaches size most p [] star place b in
    Matches-nil p (rw (← Suffix-nil s suffix) m)
loop-Finds size most zero p (c ∷ n) star place fits enough choice =
    let never : ⊥ = omega arith in elim never [ ]
loop-Finds size most (suc fuel) [] (c ∷ n) star place fits enough (inl m) = elim m [ ]
loop-Finds size most (suc fuel) [] (c ∷ n) star place fits enough (inr b) =
    retry-Finds size most fuel (loop-Finds size most fuel) [] (c ∷ n) star place enough b
loop-Finds size most (suc fuel) (byte ∷ p) (c ∷ n) star place fits enough choice =
    arms-Finds size most fuel (loop-Finds size most fuel) byte c p n star _ _ refl refl place fits
      enough choice

-- `matches` answers `true` for exactly the names that the glob stands for, by the rules that `*` is
-- any run of bytes, `?` any one byte and every other byte itself, for every pattern and name. A
-- character that is not ASCII has several bytes, each of which takes a `?` of its own.
pub matches-Matches : (pattern name : Bytes) → (matches pattern name ≡ true) ↔ Matches pattern name
unfolding matches
matches-Matches pattern name =
    let size = length pattern + length name + 1 in
    (
      λ h. elim (loop-Matches (rounds pattern name) pattern name none h) [
        | inl m ↦ m
        | inr b ↦ elim b [ ]
      ],
      λ m.
          loop-Finds size (suc (length name)) (rounds pattern name) pattern name none (omega arith)
            (omega arith)
            (let less =
                rank_outer size (suc (length name)) (length name + 2) (length pattern + length name)
                  (omega arith) (omega arith) in
              omega arith)
            (inl m),
    )
