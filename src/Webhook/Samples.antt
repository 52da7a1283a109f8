-- ===== src/Webhook/Samples.antt =====
-- A signed request and a drain: tests, and the theorems at them.
use Prim.Native.Char.{Char, code}
use Prim.Native.String.{◌++◌, char_at}
use mathlib.Core.Option
use mathlib.Core.Bool.{false≢true}
use text.Mathlib.TextLemmas.{nil-append, cons-append}
use fraisier_core.Saga.Redact.Scan.{strip_prefix}
use fraisier_core.Common.{
  ℕ, zero, suc, ◌+◌, ◌-◌, ◌*◌, ◌/◌, ◌%◌, ◌≡◌, refl, sym, ◌∙◌, ap, not, String, Bool, true, false,
  Option, none, some, leb, ◌==◌, if◌then◌else◌, List, [], ◌∷◌, arith, to_string, ok, err, ℤ,
}
use fraisier_core.Webhook.Sign.{
  Bytes, Crypto, Rejection, clamp, verify, verify_from, check_time, check_skew, skew_of,
  check_signature, check_hex, check_tag, tag, sign,
}
use fraisier_core.Webhook.Accepted.{IsTimely, verify-IsTimely, IsCrypto, verify-sign}
use fraisier_core.Webhook.Drain.{
  DrainTuning, DrainOutcome, Server, judge, drain_loop, drain_from, drain_in_flight,
}
use fraisier_core.Webhook.Drained.{IsServer, Ended, drain_in_flight-Ends}

-- A MAC that adds the bytes up, hex and decimal digits, and texts without the spaces before them.
abbrev total : Bytes → ℕ
total [] = 0
total (b ∷ bs) = b + total bs

-- A digit's character, and its value.
abbrev hex_char : ℕ → Char
hex_char n = char_at "0123456789abcdef" n

abbrev hex_value : Char → ℕ
hex_value c = if leb (code c) 57 then code c - 48 else code c - 87

abbrev encode : Bytes → String
encode [] = ""
encode (b ∷ bs) = String.◌∷◌ (hex_char (b / 16)) (String.◌∷◌ (hex_char (b % 16)) (encode bs))

abbrev decode : String → Option Bytes
decode String.[] = some []
decode (String.◌∷◌ c String.[]) = none
decode (String.◌∷◌ c (String.◌∷◌ d s)) =
    Option.map (λ bs. (16 * hex_value c + hex_value d) ∷ bs) (decode s)

abbrev parse_from : ℕ → String → ℕ
parse_from n String.[] = n
parse_from n (String.◌∷◌ c s) = parse_from (10 * n + (code c - 48)) s

abbrev trim_start : String → String
trim_start String.[] = ""
trim_start (String.◌∷◌ c s) =
    let rest = trim_start s in if code c == b' ' then rest else String.◌∷◌ c s

abbrev as_bytes : String → Bytes
as_bytes String.[] = []
as_bytes (String.◌∷◌ c s) = code c ∷ as_bytes s

abbrev crypto : Crypto
crypto = record {
  hmac = λ secret message. ((total secret + total message) % 256) ∷ [];
  encode = encode;
  decode = decode;
  parse = λ text. some (parse_from 0 text);
  trim = trim_start;
  strip_prefix = strip_prefix;
  as_bytes = as_bytes;
}

strip_prefix-append : (prefix text : String) → strip_prefix prefix (prefix ++ text) ≡ some text
unfolding strip_prefix
strip_prefix-append String.[] text = ap some (nil-append text)
strip_prefix-append (String.◌∷◌ p ps) text =
    ap (strip_prefix (String.◌∷◌ p ps)) (cons-append p ps text)
    ∙ (let rest = strip_prefix-append ps text in ground (arith, rest))

abbrev is_dark : String → Bool
is_dark String.[] = false
is_dark (String.◌∷◌ c s) = not (code c == b' ')

trim_start-append :
    (front text : String) → is_dark front ≡ true → trim_start (front ++ text) ≡ front ++ text
trim_start-append String.[] text dark = absurd (false≢true dark)
trim_start-append (String.◌∷◌ c s) text dark =
    let e = cons-append c s text in
    let light : (code c == b' ') ≡ false = ground arith in
    ap trim_start e
    ∙ ap (λ b. if b then trim_start (s ++ text) else String.◌∷◌ c (s ++ text)) light
    ∙ sym e

abbrev secret : Bytes
secret = 3 ∷ []

abbrev body : Bytes
body = 7 ∷ []

laws : IsCrypto crypto secret body 1000
unfolding tag to_string
laws = record {
  trims = refl;
  parses = refl;
  trims_hex = λ bytes. trim_start-append "sha256=" (encode bytes) refl;
  strips = strip_prefix-append;
  decodes = refl;
}

program : Unit {0}
unfolding verify verify_from check_time check_skew skew_of clamp check_signature check_hex check_tag
    tag drain_in_flight drain_from drain_loop judge strip_prefix
program = tt

stale_is_refused :
    verify crypto secret body (some "1000") (some "sha256=f9") 1400 300
    ≡ err (Rejection.stale (ℤ.pos 400))
unfolding program
stale_is_refused = refl

tampered_is_refused :
    verify crypto secret (8 ∷ []) (some "1000") (some "sha256=f9") 900 300 ≡ err Rejection.mismatch
unfolding program
tampered_is_refused = refl

accepted : verify crypto secret body (some "1000") (some "sha256=f9") 900 300 ≡ ok tt
unfolding program
accepted = refl

verify-IsTimely_example : IsTimely crypto secret body (some "sha256=f9") 900 300 (some "1000")
verify-IsTimely_example =
    verify-IsTimely crypto secret body (some "sha256=f9") 900 300 (some "1000") accepted

verify-sign_example :
    verify crypto secret body (some (to_string 1000)) (some (sign crypto secret 1000 body)) 900 300
    ≡ ok tt
unfolding clamp
verify-sign_example = verify-sign crypto secret body 1000 laws 900 300 (ground arith) (ground arith)

-- The clock, the flag, and how many probes still find a deploy.
abbrev World : Type 0
World = ℕ × (Bool × ℕ)

abbrev probe : ℕ → List String
probe zero = []
probe (suc n) = "shop/prod" ∷ []

abbrev server : Server World
server = record {
  write_flag = λ (t, (flag, n)). (ok tt, (t, (true, n)));
  remove_flag = λ (t, (flag, n)). (ok tt, (t, (false, n)));
  sleep = λ d (t, rest). (t + d, rest);
  now = λ (t, rest). t;
  in_flight = λ (t, (flag, n)). (probe n, (t, (flag, n - 1)));
}

abbrev tuning : DrainTuning
tuning = record { timeout = 3; poll = 1; settle = 2 }

abbrev flag_of : World → Bool
flag_of w = w.1.0

server_laws : IsServer server tuning flag_of
server_laws = record {
  sleeps = λ d w. omega arith;
  probes = λ w. omega arith;
  raises = λ w w' q. ap (λ r. r.1.1.0) (sym q);
  lowers = λ w w' q. ap (λ r. r.1.1.0) (sym q);
  sleeping = λ d w. refl;
  probing = λ w. refl;
}

drains :
    drain_in_flight server tuning 4 (0, (false, 2))
    ≡ (ok (some DrainOutcome.drained), (4, (true, 0)))
unfolding program
drains = refl

times_out :
    drain_in_flight server tuning 4 (0, (false, 9))
    ≡ (ok (some (DrainOutcome.timed_out ("shop/prod" ∷ []))), (5, (false, 5)))
unfolding program
times_out = refl

drain_in_flight-Ends_example :
    (outcome : DrainOutcome) × (w' : World) × (drain_in_flight server tuning 4 (0, (false, 9))
      ≡ (ok (some outcome), w'))
    × Ended server tuning flag_of 2 outcome w'
drain_in_flight-Ends_example =
    drain_in_flight-Ends server tuning flag_of server_laws (ground arith) (0, (false, 9))
      (0, (true, 9)) refl
