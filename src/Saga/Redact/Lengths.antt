-- ===== src/Saga/Redact/Lengths.antt =====
-- The lengths of what the searches of redact.rs find: the methods of `str` in Saga/Redact/Scan.
use Prim.Native.Char.{Char, code}
use Prim.Native.String.{count}
use text.Mathlib.TextLemmas.{length-cons, length-nil}
use mathlib.Core.Option
use fraisier_core.Common.{
  ℕ, ◌+◌, ◌≤◌, ◌<◌, ◌≡◌, refl, inl, inr, String, Bool, Option, none, some, arith, Bool-cases,
  if◌then◌else◌, ◌==◌,
}
use fraisier_core.Saga.Redact.Scan.{strip_prefix, split_at, span, split_last}

pub span-count :
    (stop : Char → Bool) (s : String) → count (span stop s).0 + count (span stop s).1 ≡ count s
unfolding span
span-count stop String.[] = refl
span-count stop (String.◌∷◌ c s) = elim (Bool-cases (stop c)) [
  | inl halt ↦ rw (halt, length-cons, length-nil) (omega arith)
  | inr on ↦ rw (on, length-cons, length-cons) (omega (arith, span-count stop s))
]

pub strip_prefix-count : (p s r : String) → strip_prefix p s ≡ some r → count s ≡ count p + count r
unfolding strip_prefix
strip_prefix-count String.[] s r e = ground (arith, length-nil)
strip_prefix-count (String.◌∷◌ c p) String.[] r e = cc
strip_prefix-count (String.◌∷◌ c p) (String.◌∷◌ d s) r e =
    ground (arith, strip_prefix-count p s r, length-cons c p, length-cons d s)

last_of :
    (character : ℕ) (c : Char) (s before last : String) (o : Option (String × String))
    → ((b l : String) → o ≡ some (b, l) → count l ≤ count s)
    → ◌≡◌ {A = Option (String × String)}
        (elim o [
          | some (b, l) ↦ some (String.◌∷◌ c b, l)
          | none ↦ if code c == character then some ("", String.◌∷◌ c s) else none
        ])
        (some (before, last))
    → count last ≤ count (String.◌∷◌ c s)
last_of character c s before last none h e = ground (arith, length-cons c s)
last_of character c s before last (some (b, l)) h e =
    let same : l ≡ last = cc e in rw (← same, length-cons) (omega (arith, h b l refl))

pub split_last-count :
    (character : ℕ) (s before last : String)
    → split_last character s ≡ some (before, last)
    → count last ≤ count s
unfolding split_last
split_last-count character String.[] before last e = cc
split_last-count character (String.◌∷◌ c s) before last e =
    last_of character c s before last (split_last character s) (split_last-count character s) e

found_in :
    (c : Char) (s before found rest : String) (o : Option (String × String × String))
    → ((b f r : String) → o ≡ some (b, f, r) → count r < count s)
    → ◌≡◌ {A = Option (String × String × String)}
        (Option.map (λ (b, f, r). (String.◌∷◌ c b, f, r)) o)
        (some (before, found, rest))
    → count rest < count (String.◌∷◌ c s)
found_in c s before found rest none h e = cc
found_in c s before found rest (some (b, f, r)) h e =
    let same : r ≡ rest = cc e in rw (← same, length-cons) (omega (arith, h b f r refl))

found_at :
    (c : Char) (s before found rest : String) (o : Option (String × String))
    (later : Option (String × String × String))
    → ((f r : String) → o ≡ some (f, r) → count r < count (String.◌∷◌ c s))
    → ((b f r : String) → later ≡ some (b, f, r) → count r < count s)
    → ◌≡◌ {A = Option (String × String × String)}
        (elim o [
          | some (f, r) ↦ some ("", f, r)
          | none ↦ Option.map (λ (b, f, r). (String.◌∷◌ c b, f, r)) later
        ])
        (some (before, found, rest))
    → count rest < count (String.◌∷◌ c s)
found_at c s before found rest none later here there e =
    found_in c s before found rest later there e
found_at c s before found rest (some (f, r)) later here there e =
    let same : r ≡ rest = cc e in rw (← same) (here f r refl)

at_end :
    (before found rest : String) (o : Option (String × String))
    → ((f r : String) → o ≡ some (f, r) → ⊥)
    → ◌≡◌ {A = Option (String × String × String)}
        (Option.map (λ (f, r). ("", f, r)) o)
        (some (before, found, rest))
    → ⊥
at_end before found rest none h e = cc
at_end before found rest (some (f, r)) h e = h f r refl

pub split_at-count :
    (strip : String → Option (String × String))
    → ((s found rest : String) → strip s ≡ some (found, rest) → count rest < count s)
    → (s before found rest : String) → split_at strip s ≡ some (before, found, rest)
    → count rest < count s
unfolding split_at
split_at-count strip shorter String.[] before found rest e =
    absurd (at_end before found rest (strip "") (λ f r q. omega (arith, shorter "" f r q)) e)
split_at-count strip shorter (String.◌∷◌ c s) before found rest e =
    found_at c s before found rest (strip (String.◌∷◌ c s)) (split_at strip s)
      (shorter (String.◌∷◌ c s)) (split_at-count strip shorter s) e
