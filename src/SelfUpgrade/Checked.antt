-- ===== src/SelfUpgrade/Checked.antt =====
-- What a fetched binary was checked against: source.rs.
use fraisier_core.Common.{
  ◌≡◌, refl, sym, ap, subst, String, Bool, true, false, Option, none, some, eq_iff, str_eq, Result,
  ok, err,
}
use fraisier_core.SelfUpgrade.Types.{Bytes, Error, Verified}
use fraisier_core.SelfUpgrade.Source.{Source, Net, check_expected, verified_from, fetch}

-- The checksum in the configuration itself.
abbrev pub inline : Source → Option String
inline (Source.url address sha256 checksum_url) = sha256
inline (Source.path file sha256) = sha256

module _ {W : Type 0} (net : Net W) (sum : String) where
  -- The digest is that of the bytes and the configured one, and the result says that it was checked.
  abbrev pub IsChecked : Verified → Type 0
  IsChecked v =
      (v.digest ≡ net.hex_digest v.bytes) × (net.normalise sum ≡ v.digest) × (v.verified ≡ true)

  abbrev Checks : Result Error Verified → Type 0
  Checks (ok v) = IsChecked v
  Checks (err e) = Unit

  check_expected-Checks : (bytes : Bytes) → Checks (check_expected net (some sum) bytes)
  unfolding check_expected
  check_expected-Checks bytes = go (str_eq (net.normalise sum) (net.hex_digest bytes)) refl
    where
      go :
          (same : Bool)
          → str_eq (net.normalise sum) (net.hex_digest bytes) ≡ same
          → Checks (elim same [
            | true ↦ ok (record { bytes = bytes; digest = net.hex_digest bytes; verified = true })
            | false ↦ err (Error.checksum_mismatch (net.normalise sum) (net.hex_digest bytes))
          ])
      go true e = (refl, (eq_iff (net.normalise sum) (net.hex_digest bytes)).0 e, refl)
      go false e = tt

  verified_from-Checks :
      (as_error : String → Error) (r : Result String Bytes × W)
      → Checks (verified_from net as_error (some sum) r).0
  unfolding verified_from
  verified_from-Checks as_error (ok bytes, w) = check_expected-Checks bytes
  verified_from-Checks as_error (err e, w) = tt

  fetch-Checks :
      (source : Source) (w : W) → inline source ≡ some sum → Checks (fetch net source w).0
  unfolding fetch
  fetch-Checks (Source.path file none) w e = cc e
  fetch-Checks (Source.path file (some s)) w e =
      subst (λ o. Checks (verified_from net Error.io o (net.read file w)).0) (sym e)
        (verified_from-Checks Error.io _)
  fetch-Checks (Source.url address none checksum_url) w e = cc e
  fetch-Checks (Source.url address (some s) checksum_url) w e =
      subst (λ o. Checks (verified_from net Error.fetch o (net.download address w)).0) (sym e)
        (verified_from-Checks Error.fetch _)

  -- With a checksum in the configuration, a fetch that succeeds returns bytes whose digest is that
  -- checksum, less its surrounding whitespace and in lower case, and says that they were verified;
  -- whatever the source is.
  pub fetch-IsChecked :
      (source : Source) (w w' : W) (v : Verified)
      → inline source ≡ some sum
      → fetch net source w ≡ (ok v, w')
      → IsChecked v
  fetch-IsChecked source w w' v e q = subst Checks (ap (λ r. r.0) q) (fetch-Checks source w e)
