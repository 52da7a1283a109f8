-- ===== src/Saga/Key.antt =====
-- `FraiseKey::slug`. The hash is the standard library's `DefaultHasher` over the two names, a
-- parameter here.
use Prim.Native.Char.{Char, code}
use Prim.Native.String.{◌++◌}
use fraisier_core.Common.{
  ℕ, zero, suc, ◌/◌, ◌%◌, String, Bool, ◌||◌, ◌&&◌, [], ◌∷◌, leb, ◌==◌, if◌then◌else◌, format,
}
use fraisier_core.Saga.Types.{FraiseKey}

is_ascii_alphanumeric : Char → Bool
is_ascii_alphanumeric c =
    leb b'0' (code c) && leb (code c) b'9'
    || leb b'A' (code c) && leb (code c) b'Z'
    || leb b'a' (code c) && leb (code c) b'z'

is_safe : Char → Bool
unfolding is_ascii_alphanumeric
is_safe c = is_ascii_alphanumeric c || code c == b'.' || code c == b'-' || code c == b'_'

-- Every character that is not safe in a file name becomes an underscore.
sanitize : String → String
sanitize String.[] = String.[]
sanitize (String.◌∷◌ c s) = if is_safe c then String.◌∷◌ c (sanitize s) else "_" ++ sanitize s

hex_digit : ℕ → String
hex_digit zero = "0"
hex_digit (suc zero) = "1"
hex_digit (suc (suc zero)) = "2"
hex_digit (suc (suc (suc zero))) = "3"
hex_digit (suc (suc (suc (suc zero)))) = "4"
hex_digit (suc (suc (suc (suc (suc zero))))) = "5"
hex_digit (suc (suc (suc (suc (suc (suc zero)))))) = "6"
hex_digit (suc (suc (suc (suc (suc (suc (suc zero))))))) = "7"
hex_digit (suc (suc (suc (suc (suc (suc (suc (suc zero)))))))) = "8"
hex_digit (suc (suc (suc (suc (suc (suc (suc (suc (suc zero))))))))) = "9"
hex_digit (suc (suc (suc (suc (suc (suc (suc (suc (suc (suc zero)))))))))) = "a"
hex_digit (suc (suc (suc (suc (suc (suc (suc (suc (suc (suc (suc zero))))))))))) = "b"
hex_digit (suc (suc (suc (suc (suc (suc (suc (suc (suc (suc (suc (suc zero)))))))))))) = "c"
hex_digit (suc (suc (suc (suc (suc (suc (suc (suc (suc (suc (suc (suc (suc zero))))))))))))) = "d"
hex_digit (suc (suc (suc (suc (suc (suc (suc (suc (suc (suc (suc (suc (suc (suc zero)))))))))))))) =
    "e"
hex_digit _ = "f"

-- The last `width` digits of a number in base 16; `{:016x}` of a 64-bit number has 16.
hex : ℕ → ℕ → String
hex zero n = ""
hex (suc width) n = hex width (n / 16) ++ hex_digit (n % 16)

unfoldable pub slug : (FraiseKey → ℕ) → FraiseKey → String
unfolding sanitize is_safe hex hex_digit
slug stable_hash key = format (
    sanitize (format (key.fraise ∷ "__" ∷ key.environment ∷ []))
    ∷ "-"
    ∷ hex 16 (stable_hash key)
    ∷ [])
