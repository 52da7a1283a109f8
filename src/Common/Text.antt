-- ===== src/Common/Text.antt =====
-- Texts: `format!` as the concatenation of its parts, `join`, and numbers in decimal.
use Prim.Native.Nat.{ℕ, zero, suc, ◌/◌, ◌%◌}
use Prim.Native.String.{String, ◌++◌}
use mathlib.Core.Bool.{Bool}
use mathlib.Core.List.{List, [], ◌∷◌}
use text.Mathlib.Text.{◌==◌}
use fraisier_core.Common.Booleans.{ltb, if◌then◌else◌}

-- `a == b` on strings.
abbrev pub str_eq : String → String → Bool
str_eq a b = a == b

-- `format!`, given its literal parts and the displayed arguments in order.
unfoldable pub format : List String → String
format [] = ""
format (s ∷ ss) = s ++ format ss

-- `parts.join(separator)`.
unfoldable pub join : String → List String → String
join separator [] = ""
join separator (s ∷ []) = s
join separator (s ∷ t ∷ ss) = s ++ (separator ++ join separator (t ∷ ss))

digit : ℕ → String
digit zero = "0"
digit (suc zero) = "1"
digit (suc (suc zero)) = "2"
digit (suc (suc (suc zero))) = "3"
digit (suc (suc (suc (suc zero)))) = "4"
digit (suc (suc (suc (suc (suc zero))))) = "5"
digit (suc (suc (suc (suc (suc (suc zero)))))) = "6"
digit (suc (suc (suc (suc (suc (suc (suc zero))))))) = "7"
digit (suc (suc (suc (suc (suc (suc (suc (suc zero)))))))) = "8"
digit _ = "9"

-- Every round divides by ten, so `n` rounds are enough.
digits : ℕ → ℕ → String → String
digits zero n rest = rest
digits (suc fuel) n rest =
    let longer = digits fuel (n / 10) (digit (n % 10) ++ rest) in
    if ltb n 10 then digit n ++ rest else longer

-- The decimal display of an unsigned integer.
unfoldable pub to_string : ℕ → String
unfolding digits digit
to_string n = digits (suc n) n ""
