-- ===== src/SelfUpgrade/Source.antt =====
-- Fetching and verifying a new binary: source.rs. HTTP and file reads are operations that may change
-- the world `W`; the digest and the texts' trimming are parameters. A download retries inside its
-- operation.
use fraisier_core.Common.{String, true, false, Option, none, some, str_eq, Result, ok, err}
use fraisier_core.SelfUpgrade.Types.{Bytes, Error, Verified}

pub data Source : Type 0 where
  url : (address : String) (sha256 checksum_url : Option String) → Source
  path : (file : String) (sha256 : Option String) → Source

-- `first_token` is the first token between whitespace of a body, `normalise` is
-- `trim().to_ascii_lowercase()`, `hex_digest` the SHA-256 in hex.
pub record Net (W : Type 0) : Type 0 where
  pub read : String → W → Result String Bytes × W
  pub download : String → W → Result String Bytes × W
  pub hex_digest : Bytes → String
  pub first_token : Bytes → Option String
  pub normalise : String → String

module _ {W : Type 0} (net : Net W) where
  -- The `match expected`.
  unfoldable pub check_expected : Option String → Bytes → Result Error Verified
  check_expected none bytes =
      ok (record { bytes = bytes; digest = net.hex_digest bytes; verified = false })
  check_expected (some expected) bytes =
      elim (str_eq (net.normalise expected) (net.hex_digest bytes)) [
        | true ↦ ok (record { bytes = bytes; digest = net.hex_digest bytes; verified = true })
        | false ↦ err (Error.checksum_mismatch (net.normalise expected) (net.hex_digest bytes))
      ]

  -- What follows a read or a download whose checksum is at hand.
  unfoldable pub verified_from :
      (String → Error) → Option String → Result String Bytes × W → Result Error Verified × W
  verified_from as_error expected (ok bytes, w) = (check_expected expected bytes, w)
  verified_from as_error expected (err e, w) = (err (as_error e), w)

  -- What follows the download of the checksum.
  unfoldable pub checksum_from : Bytes → Result String Bytes × W → Result Error Verified × W
  checksum_from bytes (ok raw, w) = (check_expected (net.first_token raw) bytes, w)
  checksum_from bytes (err e, w) = (err (Error.fetch e), w)

  unfoldable pub download_then : String → Result String Bytes × W → Result Error Verified × W
  download_then checksum_url (ok bytes, w) = checksum_from bytes (net.download checksum_url w)
  download_then checksum_url (err e, w) = (err (Error.fetch e), w)

  -- `Source::fetch`
  unfoldable pub fetch : Source → W → Result Error Verified × W
  fetch (Source.path file sha256) w = verified_from Error.io sha256 (net.read file w)
  fetch (Source.url address (some sum) checksum_url) w =
      verified_from Error.fetch (some sum) (net.download address w)
  fetch (Source.url address none (some checksum_url)) w =
      download_then checksum_url (net.download address w)
  fetch (Source.url address none none) w = verified_from Error.fetch none (net.download address w)
