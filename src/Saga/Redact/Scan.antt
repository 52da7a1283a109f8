-- ===== src/Saga/Redact/Scan.antt =====
-- Searching in a text: the methods of `str` that redact.rs calls, and its `while let` loops.
use Prim.Native.Char.{Char, code}
use Prim.Native.String.{◌++◌}
use mathlib.Core.Option
use fraisier_core.Common.{
  ℕ, zero, suc, ◌+◌, String, Bool, false, ◌&&◌, ◌||◌, Option, none, some, leb, ◌==◌, if◌then◌else◌,
}

-- The text after a prefix, if the text begins with it.
unfoldable pub strip_prefix : String → String → Option String
strip_prefix String.[] s = some s
strip_prefix (String.◌∷◌ p ps) String.[] = none
strip_prefix (String.◌∷◌ p ps) (String.◌∷◌ c s) =
    if code p == code c then strip_prefix ps s else none

to_ascii_lowercase : ℕ → ℕ
to_ascii_lowercase c = if leb b'A' c && leb c b'Z' then c + 32 else c

-- The same in any case, with the prefix as the text spells it.
unfoldable pub strip_prefix_ignore_case : String → String → Option (String × String)
unfolding to_ascii_lowercase
strip_prefix_ignore_case String.[] s = some (String.[], s)
strip_prefix_ignore_case (String.◌∷◌ p ps) String.[] = none
strip_prefix_ignore_case (String.◌∷◌ p ps) (String.◌∷◌ c s) =
    if to_ascii_lowercase (code p) == to_ascii_lowercase (code c)
    then Option.map (λ (found, rest). (String.◌∷◌ c found, rest)) (strip_prefix_ignore_case ps s)
    else none

-- What stands before the first place where `strip` finds its text, that text, and what follows.
unfoldable pub split_at :
    (String → Option (String × String)) → String → Option (String × String × String)
split_at strip String.[] = Option.map (λ (found, rest). ("", found, rest)) (strip "")
split_at strip (String.◌∷◌ c s) = elim (strip (String.◌∷◌ c s)) [
  | some (found, rest) ↦ some ("", found, rest)
  | none ↦ Option.map (λ (b, found, rest). (String.◌∷◌ c b, found, rest)) (split_at strip s)
]

-- The text up to the first character that passes the test, and the rest from it on.
unfoldable pub span : (Char → Bool) → String → String × String
span stop String.[] = ("", "")
span stop (String.◌∷◌ c s) =
    let (before, rest) = span stop s in
    if stop c then ("", String.◌∷◌ c s) else (String.◌∷◌ c before, rest)

-- The text up to the last `character` (`rfind`), and the rest from it on.
unfoldable pub split_last : ℕ → String → Option (String × String)
split_last character String.[] = none
split_last character (String.◌∷◌ c s) = elim (split_last character s) [
  | some (before, rest) ↦ some (String.◌∷◌ c before, rest)
  | none ↦ if code c == character then some ("", String.◌∷◌ c s) else none
]

unfoldable pub contains_char : ℕ → String → Bool
contains_char character String.[] = false
contains_char character (String.◌∷◌ c s) = code c == character || contains_char character s

unfoldable pub last_char : String → Option Char
last_char String.[] = none
last_char (String.◌∷◌ c s) = elim (last_char s) [ some d ↦ some d | none ↦ some c ]

-- `while let Some(..) = step(rest) { out.push_str(pushed); rest = ..; } out.push_str(rest)`
unfoldable pub scan : (String → Option (String × String)) → ℕ → String → String
scan step zero rest = rest
scan step (suc fuel) rest = elim (step rest) [
  | none ↦ rest
  | some (pushed, rest') ↦ pushed ++ scan step fuel rest'
]
