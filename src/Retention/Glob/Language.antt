-- ===== src/Retention/Glob/Language.antt =====
-- The names that a file-name glob stands for, and how they shift: `*` is any run of bytes, `?` any one
-- byte, every other byte itself.
use fraisier_core.Common.{ℕ, ◌≡◌, true, false, [], ◌∷◌, ◌==◌}
use fraisier_core.Retention.Glob.{Bytes, asterisk, accepts}

pub data Matches : Bytes → Bytes → Type 0 where
  done : Matches [] []
  one :
      {byte c : ℕ} {p n : Bytes}
      → (byte == asterisk) ≡ false
      → accepts byte c ≡ true
      → Matches p n
      → Matches (byte ∷ p) (c ∷ n)
  nothing :
      {byte : ℕ} {p n : Bytes} → (byte == asterisk) ≡ true → Matches p n → Matches (byte ∷ p) n
  more :
      {byte c : ℕ} {p n : Bytes}
      → (byte == asterisk) ≡ true
      → Matches (byte ∷ p) n
      → Matches (byte ∷ p) (c ∷ n)

pub data Suffix : Bytes → Bytes → Type 0 where
  whole : {n : Bytes} → Suffix n n
  later : {c : ℕ} {s n : Bytes} → Suffix s n → Suffix s (c ∷ n)

-- From one place to another of the pattern, byte by byte along the name.
pub data Steps : Bytes → Bytes → Bytes → Bytes → Type 0 where
  stay : {p n : Bytes} → Steps p n p n
  step :
      {byte c : ℕ} {p n p' n' : Bytes}
      → (byte == asterisk) ≡ false
      → Steps p n p' n'
      → Steps (byte ∷ p) (c ∷ n) p' n'

pub Steps-snoc :
    {byte c : ℕ} {p n p' n' : Bytes}
    → Steps p n (byte ∷ p') (c ∷ n')
    → (byte == asterisk) ≡ false
    → Steps p n p' n'
Steps-snoc stay e = step e stay
Steps-snoc (step d s) e = step d (Steps-snoc s e)

-- What a star leaves to the rest of the pattern.
pub star_leaves :
    {byte : ℕ} {p n : Bytes}
    → (byte == asterisk) ≡ true
    → Matches (byte ∷ p) n
    → (s : Bytes) × Suffix s n × Matches p s
star_leaves e (one d a m) = cc
star_leaves e (nothing d m) = (_, whole, m)
star_leaves e (more d m) = let (s, suffix, m') = star_leaves e m in (s, later suffix, m')

pub star_takes :
    {byte : ℕ} {p s n : Bytes}
    → (byte == asterisk) ≡ true
    → Suffix s n
    → Matches (byte ∷ p) s
    → Matches (byte ∷ p) n
star_takes e whole m = m
star_takes e (later suffix) m = more e (star_takes e suffix m)

Suffix-tail : {d : ℕ} {s n : Bytes} → Suffix (d ∷ s) n → Suffix s n
Suffix-tail whole = later whole
Suffix-tail (later suffix) = later (Suffix-tail suffix)

Suffix-tail_tail : {c d : ℕ} {s n : Bytes} → Suffix (d ∷ s) (c ∷ n) → Suffix s n
Suffix-tail_tail whole = whole
Suffix-tail_tail (later suffix) = Suffix-tail suffix

-- A match that starts further on gets to the same place of the pattern further on.
pub Matches-shift :
    {p n p' n' s : Bytes}
    → Steps p n p' n'
    → Suffix s n
    → Matches p s
    → (s' : Bytes) × Suffix s' n' × Matches p' s'
Matches-shift stay suffix m = (_, suffix, m)
Matches-shift (step d steps) suffix (one e a m) = Matches-shift steps (Suffix-tail_tail suffix) m
Matches-shift (step d steps) suffix (nothing e m) = cc
Matches-shift (step d steps) suffix (more e m) = cc
