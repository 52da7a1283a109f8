-- ===== src/Webhook/Sign.antt =====
-- Signing and verifying requests: sign.rs. HMAC, hex, the parsing of numbers and the trimming of texts
-- are parameters; `verify_slice` of a MAC compares it with the bytes given.
use fraisier_core.Common.{
  ℕ, ◌+◌, ◌-◌, String, Bool, true, false, Option, none, some, List, [], ◌∷◌, ◌++◌, leb, ◌==◌, ◌&&◌,
  format, to_string, Result, ok, err, Done, ℤ, neg,
}

abbrev pub Bytes : Type 0
Bytes = List ℕ

-- `hmac` is `HMAC_SHA256(secret, message)`, `parse` is `str::parse::<u64>`, `decode` and `encode` are hex.
pub record Crypto : Type 0 where
  pub hmac : (secret message : Bytes) → Bytes
  pub encode : Bytes → String
  pub decode : String → Option Bytes
  pub parse : String → Option ℕ
  pub trim : String → String
  pub strip_prefix : (prefix text : String) → Option String
  pub as_bytes : String → Bytes

pub data Rejection : Type 0 where
  missing_timestamp : Rejection
  bad_timestamp : Rejection
  stale : (skew : ℤ) → Rejection
  missing_signature : Rejection
  bad_signature_format : Rejection
  mismatch : Rejection

-- `i64::MAX`
abbrev pub i64_max : ℕ
i64_max = 9223372036854775807

-- `i64::try_from(n).unwrap_or(i64::MAX)`
unfoldable pub clamp : ℕ → ℕ
clamp n = elim (leb n i64_max) [ true ↦ n | false ↦ i64_max ]

-- The difference of two numbers, and `unsigned_abs` of it.
unfoldable pub skew_of : ℕ → ℕ → ℤ
skew_of now ts = elim (leb ts now) [ true ↦ ℤ.pos (now - ts) | false ↦ neg (ts - now) ]

abbrev pub unsigned_abs : ℤ → ℕ
unsigned_abs (ℤ.pos n) = n
unsigned_abs (ℤ.negsuc n) = n + 1

abbrev pub bytes_eq : Bytes → Bytes → Bool
bytes_eq [] [] = true
bytes_eq [] (c ∷ cs) = false
bytes_eq (b ∷ bs) [] = false
bytes_eq (b ∷ bs) (c ∷ cs) = b == c && bytes_eq bs cs

module _ (crypto : Crypto) (secret : Bytes) where
  unfoldable pub tag : (timestamp : String) → (body : Bytes) → Bytes
  tag timestamp body = crypto.hmac secret (crypto.as_bytes timestamp ++ (b'.' ∷ body))

  unfoldable pub sign : ℕ → Bytes → String
  sign timestamp body = format ("sha256=" ∷ crypto.encode (tag (to_string timestamp) body) ∷ [])

  module _ (body : Bytes) where
    unfoldable pub check_tag : (timestamp : String) → Option Bytes → Result Rejection Done
    check_tag timestamp none = err Rejection.bad_signature_format
    check_tag timestamp (some provided) = elim (bytes_eq (tag timestamp body) provided) [
      | true ↦ ok tt
      | false ↦ err Rejection.mismatch
    ]

    unfoldable pub check_hex : (timestamp : String) → Option String → Result Rejection Done
    check_hex timestamp none = err Rejection.bad_signature_format
    check_hex timestamp (some provided_hex) = check_tag timestamp (crypto.decode provided_hex)

    unfoldable pub check_signature : (timestamp : String) → Option String → Result Rejection Done
    check_signature timestamp none = err Rejection.missing_signature
    check_signature timestamp (some signature) =
        check_hex timestamp (crypto.strip_prefix "sha256=" (crypto.trim signature))

    module _ (signature_header : Option String) (now tolerance : ℕ) where
      unfoldable pub check_skew : (timestamp : String) → ℤ → Result Rejection Done
      check_skew timestamp skew = elim (leb (unsigned_abs skew) tolerance) [
        | true ↦ check_signature timestamp signature_header
        | false ↦ err (Rejection.stale skew)
      ]

      unfoldable pub check_time : (timestamp : String) → Option ℕ → Result Rejection Done
      check_time timestamp none = err Rejection.bad_timestamp
      check_time timestamp (some parsed) = check_skew timestamp (skew_of (clamp now) (clamp parsed))

      unfoldable pub verify_from : Option String → Result Rejection Done
      verify_from none = err Rejection.missing_timestamp
      verify_from (some header) =
          check_time (crypto.trim header) (crypto.parse (crypto.trim header))

  unfoldable pub verify :
      (body : Bytes) (timestamp_header signature_header : Option String) (now tolerance : ℕ)
      → Result Rejection Done
  verify body timestamp_header signature_header now tolerance =
      verify_from body signature_header now tolerance timestamp_header
