-- ===== src/Adapters/Errors.antt =====
-- The errors of the adapters: adapter_axes.rs. A text that the operating system writes is a parameter.
use fraisier_core.Common.{String, Option, none, some, [], ◌∷◌, format, ℤ}
use fraisier_core.Adapters.Kinds.{AdapterErrorKind, as_str, code}

-- `struct AdapterError`; its display is `show`.
pub record AdapterError : Type 0 where
  pub kind : AdapterErrorKind
  pub code : ℤ
  pub message : String
  pub adapter : Option String
  pub operation : Option String
  pub stderr : Option String

unfoldable pub show : AdapterError → String
show error = format ("[" ∷ as_str error.kind ∷ "] " ∷ error.message ∷ [])

-- `AdapterError::new`
abbrev pub new : AdapterErrorKind → String → AdapterError
new kind message = record {
  kind = kind;
  code = code kind;
  message = message;
  adapter = none;
  operation = none;
  stderr = none;
}

-- `AdapterError::remote`
abbrev pub remote : ℤ → String → AdapterError
remote code message = record (new AdapterErrorKind.remote message) { code = code }

abbrev pub method_not_supported : String → AdapterError
method_not_supported method =
    record (new AdapterErrorKind.method_not_supported
      (format ("method '" ∷ method ∷ "' is not supported by this adapter" ∷ []))) {
        operation = some method;
      }

abbrev pub missing_secret : String → AdapterError
missing_secret logical =
    new AdapterErrorKind.missing_secret
      (format ("secret '" ∷ logical ∷ "' is not declared in env_secrets" ∷ []))

abbrev pub secret_read_failed : (logical source cause : String) → AdapterError
secret_read_failed logical source cause = new AdapterErrorKind.secret_read_failed (
    format (
      "secret '" ∷ logical ∷ "' maps to env var '" ∷ source ∷ "' which could not be read: " ∷ cause
      ∷ []))

abbrev pub with_adapter : String → AdapterError → AdapterError
with_adapter adapter error = record error { adapter = some adapter }
