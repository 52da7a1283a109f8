-- ===== src/Saga/Redact/Fuel.antt =====
-- The loop of `urls` in redact.rs without fuel, and how its rounds shorten the text.
use Prim.Native.String.{◌++◌, count}
use text.Mathlib.TextLemmas.{length-append}
use mathlib.Core.Option
use fraisier_core.Common.{
  ℕ, zero, suc, ◌+◌, ◌≤◌, ◌<◌, ◌≡◌, refl, inl, inr, String, Bool, true, false, Option, none, some,
  arith, Option-cases, if◌then◌else◌,
}
use fraisier_core.Saga.Redact.{is_authority_end, is_url_end, strip_mark, find_at, url_step, urls}
use fraisier_core.Saga.Redact.Lengths.{
  span-count, strip_prefix-count, split_last-count, split_at-count,
}
use fraisier_core.Saga.Redact.Scan.{strip_prefix, contains_char, split_at, span, split_last, scan}

-- What the loop of a step makes of a text, without fuel.
pub data Scans (step : String → Option (String × String)) : String → String → Type 0 where
  ends : (text : String) → step text ≡ none → Scans step text text
  goes :
      (text pushed rest out : String)
      → step text ≡ some (pushed, rest)
      → Scans step rest out
      → Scans step text (pushed ++ out)

-- Every round leaves a shorter text.
pub Shortens : (String → Option (String × String)) → Type 0
Shortens step =
    (text pushed rest : String) → step text ≡ some (pushed, rest) → count rest < count text

module _ (step : String → Option (String × String)) (shortens : Shortens step) where
  pub scan-Scans :
      (fuel : ℕ) (text : String) → count text ≤ fuel → Scans step text (scan step fuel text)
  unfolding scan Shortens
  scan-Scans zero text h = elim (Option-cases (step text)) [
    | inl e ↦ ends text e
    | inr ((pushed, rest), e) ↦ absurd (omega (arith, h, shortens text pushed rest e))
  ]
  scan-Scans (suc fuel) text h = elim (Option-cases (step text)) [
    | inl e ↦ rw (e, scan) (ends text e)
    | inr ((pushed, rest), e) ↦
        rw (e, scan)
          (goes text pushed rest _ e
            (scan-Scans fuel rest (omega (arith, h, shortens text pushed rest e))))
  ]

strip_mark-count :
    (s found rest : String) → strip_mark s ≡ some (found, rest) → count rest < count s
unfolding strip_mark
strip_mark-count s found rest e = mark_of (strip_prefix "://" s) refl e
  where
    mark_of :
        (o : Option String)
        → strip_prefix "://" s ≡ o
        → ◌≡◌ {A = Option (String × String)}
            (Option.map (λ rest. ("://", rest)) o)
            (some (found, rest))
        → count rest < count s
    mark_of none q e = cc
    mark_of (some r) q e =
        let same : r ≡ rest = cc e in rw (← same) (omega (arith, strip_prefix-count "://" s r q))

module _ (section tail url after rest : String) (n : ℕ) (front : count section + count tail ≡ n)
    (whole : count url + count after ≡ n) where
  user_at :
      (o : Option (String × String))
      → ((u a : String) → o ≡ some (u, a) → count a ≤ count url)
      → ◌≡◌ {A = Option String} (Option.map (λ (u, a). a ++ after) o) (some rest)
      → count rest ≤ n
  user_at none h e = cc
  user_at (some (u, a)) h e =
      let same : a ++ after ≡ rest = cc e in
      rw (← same, length-append) (omega (arith, whole, h u a refl))

  at_of :
      (o later : Option (String × String)) (has_colon : Bool)
      → ((u a : String) → o ≡ some (u, a) → count a ≤ count section)
      → ((u a : String) → later ≡ some (u, a) → count a ≤ count url)
      → ◌≡◌ {A = Option String}
          (elim o [
            | some (u, a) ↦ some (a ++ tail)
            | none ↦ if has_colon then Option.map (λ (u, a). a ++ after) later else none
          ])
          (some rest)
      → count rest ≤ n
  at_of (some (u, a)) later has_colon here there e =
      let same : a ++ tail ≡ rest = cc e in
      rw (← same, length-append) (omega (arith, front, here u a refl))
  at_of none later true here there e = user_at later there e
  at_of none later false here there e = cc

-- What follows the credentials is no longer than the authority.
find_at-count :
    (authority rest : String) → find_at authority ≡ some rest → count rest ≤ count authority
unfolding find_at
find_at-count authority rest e =
    let (section, tail) = span is_authority_end authority in
    let (url, after) = span is_url_end authority in
    at_of section tail url after rest (count authority) (span-count is_authority_end authority)
      (span-count is_url_end authority) (split_last b'@' section) (split_last b'@' url)
      (contains_char b':' section) (split_last-count b'@' section) (split_last-count b'@' url) e

step_of :
    (before mark authority pushed rest tail section : String) (o : Option String)
    → count tail ≤ count authority
    → ((r : String) → o ≡ some r → count r ≤ count authority)
    → ◌≡◌ {A = Option (String × String)}
        (elim o [
          | some r ↦ some (before ++ mark ++ "***", r)
          | none ↦ some (before ++ mark ++ section, tail)
        ])
        (some (pushed, rest))
    → count rest ≤ count authority
step_of before mark authority pushed rest tail section none h found e =
    let same : tail ≡ rest = cc e in rw (← same) h
step_of before mark authority pushed rest tail section (some r) h found e =
    let same : r ≡ rest = cc e in rw (← same) (found r refl)

url_step-Shortens : Shortens url_step
unfolding url_step Shortens
url_step-Shortens text pushed rest e = go (split_at strip_mark text) refl e
  where
    go :
        (o : Option (String × String × String))
        → split_at strip_mark text ≡ o
        → ◌≡◌ {A = Option (String × String)}
            (elim o [
              | none ↦ none
              | some (before, mark, authority) ↦ elim (find_at authority) [
                | some rest ↦ some (before ++ mark ++ "***", rest)
                | none ↦
                    let (section, tail) = span is_authority_end authority in
                    some (before ++ mark ++ section, tail)
              ]
            ])
            (some (pushed, rest))
        → count rest < count text
    go none q e = cc
    go (some (before, mark, authority)) q e =
        let (section, tail) = span is_authority_end authority in
        let shorter = split_at-count strip_mark strip_mark-count text before mark authority q in
        let within =
          step_of before mark authority pushed rest tail section (find_at authority)
            (omega (arith, span-count is_authority_end authority)) (find_at-count authority) e in
        omega (arith, shorter, within)

-- The redaction of URLs runs its loop to the end on every text: the result is what the rounds push,
-- up to a rest in which no round finds a URL.
pub urls-Scans : (text : String) → Scans url_step text (urls text)
unfolding urls
urls-Scans text = scan-Scans url_step url_step-Shortens (count text) text (omega arith)
