-- ===== src/Webhook/Accepted.antt =====
-- Which requests are accepted: sign.rs.
use Prim.Native.String.{◌++◌}
use text.Mathlib.TextLemmas.{append-nil}
use fraisier_core.Common.{
  ℕ, zero, suc, ◌-◌, ◌+◌, ◌≤◌, ◌<◌, ◌≡◌, ◌∙◌, refl, sym, ap, subst, leb→le, le→leb, neg, to_string,
  String, Bool, true, false, Option, none, some, [], ◌∷◌, leb, arith, format, Result, ok, err, Done,
  ℤ,
}
use fraisier_core.Webhook.Sign.{
  Bytes, Crypto, Rejection, clamp, skew_of, unsigned_abs, bytes_eq, tag, check_tag, check_hex,
  check_signature, check_skew, check_time, verify_from, verify, sign,
}

bytes_eq-eq : (bs cs : Bytes) → bytes_eq bs cs ≡ true → bs ≡ cs
bytes_eq-eq [] [] h = refl
bytes_eq-eq [] (c ∷ cs) h = cc h
bytes_eq-eq (b ∷ bs) [] h = cc h
bytes_eq-eq (b ∷ bs) (c ∷ cs) h =
    let same : b ≡ c = ground arith in
    let rest : bytes_eq bs cs ≡ true = ground arith in
    let later = bytes_eq-eq bs cs rest in cc (same, later)

unsigned_abs-neg : (n : ℕ) → unsigned_abs (neg n) ≡ n
unsigned_abs-neg zero = refl
unsigned_abs-neg (suc n) = omega arith

skew_of-le : (a b t : ℕ) → leb (unsigned_abs (skew_of a b)) t ≡ true → (a ≤ b + t) × (b ≤ a + t)
unfolding skew_of
skew_of-le a b t h = go (leb b a) refl h
  where
    go :
        (later : Bool)
        → leb b a ≡ later
        → leb (unsigned_abs (elim later [ true ↦ ℤ.pos (a - b) | false ↦ neg (b - a) ])) t ≡ true
        → (a ≤ b + t) × (b ≤ a + t)
    go true e g =
        let le = leb→le b a e in let near = leb→le (a - b) t g in (omega arith, omega arith)
    go false e g =
        let near : b - a ≤ t =
          leb→le (b - a) t (subst (λ n. leb n t ≡ true) (unsigned_abs-neg (b - a)) g) in
        let lt : a < b = ground arith in (omega arith, omega arith)

module _ (crypto : Crypto) (secret body : Bytes) where
  -- The signature is the tag of the body with this timestamp.
  abbrev pub IsSigned : (timestamp : String) → (signature : Option String) → Type 0
  IsSigned timestamp signature =
      (header : String) × (hex : String) × (signature ≡ some header)
      × (crypto.strip_prefix "sha256=" (crypto.trim header) ≡ some hex)
      × (crypto.decode hex ≡ some (tag crypto secret timestamp body))

  check_tag-ok :
      (timestamp hex : String) (o : Option Bytes)
      → check_tag crypto secret body timestamp o ≡ ok tt
      → o ≡ some (tag crypto secret timestamp body)
  unfolding check_tag
  check_tag-ok timestamp hex none h = cc h
  check_tag-ok timestamp hex (some provided) h =
      go (bytes_eq (tag crypto secret timestamp body) provided) refl h
    where
      go :
          (same : Bool)
          → bytes_eq (tag crypto secret timestamp body) provided ≡ same
          → ◌≡◌ {A = Result Rejection Done}
              (elim same [ true ↦ ok tt | false ↦ err Rejection.mismatch ])
              (ok tt)
          → some provided ≡ some (tag crypto secret timestamp body)
      go true e g = ap some (sym (bytes_eq-eq _ provided e))
      go false e g = cc g

  check_signature-ok :
      (timestamp : String) (signature : Option String)
      → check_signature crypto secret body timestamp signature ≡ ok tt
      → IsSigned timestamp signature
  unfolding check_signature check_hex
  check_signature-ok timestamp none h = cc h
  check_signature-ok timestamp (some header) h =
      go (crypto.strip_prefix "sha256=" (crypto.trim header)) refl h
    where
      go :
          (o : Option String)
          → crypto.strip_prefix "sha256=" (crypto.trim header) ≡ o
          → check_hex crypto secret body timestamp o ≡ ok tt
          → IsSigned timestamp (some header)
      go none e g = cc g
      go (some hex) e g = (header, hex, refl, e, check_tag-ok timestamp hex _ g)

  module _ (signature : Option String) (now tolerance : ℕ) where
    -- The timestamp is a number near the clock, both as `i64`, and the signature is over it.
    abbrev pub IsTimely : (timestamp : Option String) → Type 0
    IsTimely timestamp =
        (header : String) × (parsed : ℕ) × (timestamp ≡ some header)
        × (crypto.parse (crypto.trim header) ≡ some parsed)
        × (clamp now ≤ clamp parsed + tolerance)
        × (clamp parsed ≤ clamp now + tolerance)
        × IsSigned (crypto.trim header) signature

    check_skew-ok :
        (timestamp : String) (a b : ℕ)
        → check_skew crypto secret body signature now tolerance timestamp (skew_of a b) ≡ ok tt
        → (a ≤ b + tolerance) × (b ≤ a + tolerance) × IsSigned timestamp signature
    unfolding check_skew
    check_skew-ok timestamp a b h = go (leb (unsigned_abs (skew_of a b)) tolerance) refl h
      where
        go :
            (near : Bool)
            → leb (unsigned_abs (skew_of a b)) tolerance ≡ near
            → ◌≡◌ {A = Result Rejection Done}
                (elim near [
                  | true ↦ check_signature crypto secret body timestamp signature
                  | false ↦ err (Rejection.stale (skew_of a b))
                ])
                (ok tt)
            → (a ≤ b + tolerance) × (b ≤ a + tolerance) × IsSigned timestamp signature
        go true e g =
            let (p, q) = skew_of-le a b tolerance e in
            (p, q, check_signature-ok timestamp signature g)
        go false e g = cc g

    -- A request that is accepted has a timestamp that is a number within the tolerance of the clock in
    -- both directions, both cut off at the largest `i64`, and a signature that decodes to the tag of
    -- the timestamp and the body under the secret.
    pub verify-IsTimely :
        (timestamp : Option String)
        → verify crypto secret body timestamp signature now tolerance ≡ ok tt
        → IsTimely timestamp
    unfolding verify verify_from check_time
    verify-IsTimely none h = cc h
    verify-IsTimely (some header) h = go (crypto.parse (crypto.trim header)) refl h
      where
        go :
            (o : Option ℕ)
            → crypto.parse (crypto.trim header) ≡ o
            → check_time crypto secret body signature now tolerance (crypto.trim header) o ≡ ok tt
            → IsTimely (some header)
        go none e g = cc g
        go (some parsed) e g =
            let (p, q, signed) = check_skew-ok (crypto.trim header) (clamp now) (clamp parsed) g in
            (header, parsed, refl, e, p, q, signed)

-- What a client's signature needs of the parameters: a number and the tag in hex are read back as they were
-- written, trimming leaves a number and a prefixed hex text, which have no white space around them, and
-- `strip_prefix` returns what follows the prefix.
pub record IsCrypto (crypto : Crypto) (secret body : Bytes) (timestamp : ℕ) : Type 0 where
  pub trims : crypto.trim (to_string timestamp) ≡ to_string timestamp
  pub parses : crypto.parse (to_string timestamp) ≡ some timestamp
  pub trims_hex :
      (bytes : Bytes)
      → crypto.trim ("sha256=" ++ crypto.encode bytes) ≡ "sha256=" ++ crypto.encode bytes
  pub strips : (prefix text : String) → crypto.strip_prefix prefix (prefix ++ text) ≡ some text
  pub decodes :
      crypto.decode (crypto.encode (tag crypto secret (to_string timestamp) body))
      ≡ some (tag crypto secret (to_string timestamp) body)

bytes_eq_refl : (bs : Bytes) → bytes_eq bs bs ≡ true
bytes_eq_refl [] = refl
bytes_eq_refl (b ∷ bs) = let rest = bytes_eq_refl bs in ground arith

skew_of-near : (a b t : ℕ) → a ≤ b + t → b ≤ a + t → leb (unsigned_abs (skew_of a b)) t ≡ true
unfolding skew_of
skew_of-near a b t p q = go (leb b a)
  where
    go :
        (later : Bool)
        → leb (unsigned_abs (elim later [ true ↦ ℤ.pos (a - b) | false ↦ neg (b - a) ])) t ≡ true
    go true = le→leb (a - b) t (omega arith)
    go false =
        subst (λ n. leb n t ≡ true) (sym (unsigned_abs-neg (b - a)))
          (le→leb (b - a) t (omega arith))

module _ (crypto : Crypto) (secret body : Bytes) where
  check_tag-signed :
      (timestamp : String)
      → check_tag crypto secret body timestamp (some (tag crypto secret timestamp body)) ≡ ok tt
  unfolding check_tag
  check_tag-signed timestamp =
      ap
        (λ same. elim same as (λ x. Result Rejection Done) [
          | true ↦ ok tt
          | false ↦ err Rejection.mismatch
        ])
        (bytes_eq_refl (tag crypto secret timestamp body))

  module _ (timestamp : ℕ) (laws : IsCrypto crypto secret body timestamp) where
    -- The signature is the prefix and the tag in hex.
    strips-sign :
        crypto.strip_prefix "sha256=" (crypto.trim (sign crypto secret timestamp body))
        ≡ some (crypto.encode (tag crypto secret (to_string timestamp) body))
    unfolding sign format
    strips-sign =
        let hex = crypto.encode (tag crypto secret (to_string timestamp) body) in
        ap (λ text. crypto.strip_prefix "sha256=" (crypto.trim ("sha256=" ++ text)))
          (append-nil hex)
        ∙ ap (crypto.strip_prefix "sha256=")
            (laws.trims_hex (tag crypto secret (to_string timestamp) body))
        ∙ laws.strips "sha256=" hex

    check_signature-signed :
        check_signature crypto secret body
          (to_string timestamp)
          (some (sign crypto secret timestamp body))
        ≡ ok tt
    unfolding check_signature check_hex
    check_signature-signed =
        ap (check_hex crypto secret body (to_string timestamp)) strips-sign
        ∙ ap (check_tag crypto secret body (to_string timestamp)) laws.decodes
        ∙ check_tag-signed (to_string timestamp)

    -- Where a timestamp and a tag in hex are read back as they were written, trimming leaves them, and
    -- `strip_prefix` returns what follows the prefix, a request signed with the same secret is accepted as long as its timestamp is within the tolerance of the clock in both
    -- directions, both cut off at the largest `i64`.
    pub verify-sign :
        (now tolerance : ℕ)
        → clamp now ≤ clamp timestamp + tolerance
        → clamp timestamp ≤ clamp now + tolerance
        → verify crypto secret body
            (some (to_string timestamp))
            (some (sign crypto secret timestamp body))
            now
            tolerance
          ≡ ok tt
    unfolding verify verify_from check_time check_skew
    verify-sign now tolerance p q =
        let signature = some (sign crypto secret timestamp body) in
        let skew = skew_of (clamp now) (clamp timestamp) in
        ap (λ t. check_time crypto secret body signature now tolerance t (crypto.parse t))
          laws.trims
        ∙ ap (check_time crypto secret body signature now tolerance (to_string timestamp))
            laws.parses
        ∙ ap
            (λ near. elim near as (λ x. Result Rejection Done) [
              | true ↦ check_signature crypto secret body (to_string timestamp) signature
              | false ↦ err (Rejection.stale skew)
            ])
            (skew_of-near (clamp now) (clamp timestamp) tolerance p q)
        ∙ check_signature-signed
