-- ===== src/Saga/Redact.antt =====
-- Stripping credentials out of operator-visible text: crates/fraisier-saga/src/redact.rs. A text is
-- walked by characters; the source's byte positions always fall on ASCII characters. The tests
-- `char::is_alphanumeric` and `char::is_whitespace` of the standard library are parameters.
pub mod Scan
pub mod Lengths
pub mod Fuel
use Prim.Native.Char.{Char, code}
use Prim.Native.String.{◌++◌, count}
use mathlib.Core.Option
use fraisier_core.Common.{
  String, Bool, true, false, not, ◌||◌, ◌&&◌, Option, none, some, ◌==◌, str_eq, if◌then◌else◌,
}
use Scan.{
  strip_prefix, strip_prefix_ignore_case, split_at, span, split_last, contains_char, last_char,
  scan,
}

-- What ends a URL's authority section.
is_authority_end : Char → Bool
is_authority_end c =
    code c == b'/'
    || code c == b'?'
    || code c == b'#'
    || code c == b' '
    || code c == 9
    || code c == b'"'
    || code c == 39
    || code c == b','

-- What ends the whole URL in running text.
is_url_end : Char → Bool
is_url_end c = code c == b' ' || code c == 9 || code c == b'"' || code c == 39 || code c == b','

strip_mark : String → Option (String × String)
strip_mark s = Option.map (λ rest. ("://", rest)) (strip_prefix "://" s)

-- The text from the `@` on that ends the credentials of the URL whose authority begins here.
find_at : String → Option String
find_at authority =
    let (section, tail) = span is_authority_end authority in
    let (url, after) = span is_url_end authority in
    elim (split_last b'@' section) [
      | some (user, at) ↦ some (at ++ tail)
      | none ↦
          if contains_char b':' section
          then Option.map (λ (user, at). at ++ after) (split_last b'@' url)
          else none
    ]

-- One round of the loop of `urls`: what is pushed, and the rest.
pub url_step : String → Option (String × String)
unfolding strip_mark find_at is_authority_end is_url_end
url_step text = elim (split_at strip_mark text) [
  | none ↦ none
  | some (before, mark, authority) ↦ elim (find_at authority) [
    | some rest ↦ some (before ++ mark ++ "***", rest)
    | none ↦
        let (section, tail) = span is_authority_end authority in
        some (before ++ mark ++ section, tail)
  ]
]

-- Each round takes at least the mark off the text, so the fuel is enough.
unfoldable pub urls : String → String
unfolding url_step
urls text = scan url_step (count text) text

strip_key : String → Option (String × String)
strip_key = strip_prefix_ignore_case "password="

module _ (is_alphanumeric is_whitespace : Char → Bool) where
  is_boundary : String → Bool
  is_boundary before = elim (last_char before) [
    | none ↦ true
    | some c ↦ not (is_alphanumeric c) && not (code c == b'_')
  ]

  -- The value of a keyword, and what follows it.
  split_value : String → String × String
  split_value value = elim (strip_prefix "'" value) [
    | none ↦ span is_whitespace value
    | some quoted ↦
        let (inner, rest) = span (λ c. code c == 39) quoted in
        elim (strip_prefix "'" rest) [
          | none ↦ (value, "")
          | some after ↦ ("'" ++ inner ++ "'", after)
        ]
  ]

  -- One round of the loop of `keywords`.
  keyword_step : String → Option (String × String)
  unfolding is_boundary split_value strip_key
  keyword_step text = elim (split_at strip_key text) [
    | none ↦ none
    | some (before, key, value) ↦
        let (secret, after) = split_value value in
        if not (is_boundary before) || str_eq secret ""
        then some (before ++ key, value)
        else some (before ++ key ++ "***", after)
  ]

  unfoldable pub keywords : String → String
  unfolding keyword_step
  keywords text = scan keyword_step (count text) text

  unfoldable pub credentials : String → String
  unfolding keywords urls
  credentials text = keywords (urls text)
