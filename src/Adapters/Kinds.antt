-- ===== src/Adapters/Kinds.antt =====
-- The kinds of adapter errors, with their names and codes: adapter_axes.rs.
use fraisier_core.Common.{String, ℤ, neg}

-- `enum AdapterErrorKind`
pub data AdapterErrorKind : Type 0 where
  method_not_supported : AdapterErrorKind
  missing_secret : AdapterErrorKind
  secret_read_failed : AdapterErrorKind
  invalid_config : AdapterErrorKind
  precondition_failed : AdapterErrorKind
  db_unreachable : AdapterErrorKind
  schema_error : AdapterErrorKind
  lock_contention : AdapterErrorKind
  git_error : AdapterErrorKind
  irreversible_rollback : AdapterErrorKind
  internal_error : AdapterErrorKind
  execution : AdapterErrorKind
  protocol : AdapterErrorKind
  remote : AdapterErrorKind

-- `AdapterErrorKind::as_str`
abbrev pub as_str : AdapterErrorKind → String
as_str AdapterErrorKind.method_not_supported = "method_not_supported"
as_str AdapterErrorKind.missing_secret = "missing_secret"
as_str AdapterErrorKind.secret_read_failed = "secret_read_failed"
as_str AdapterErrorKind.invalid_config = "invalid_config"
as_str AdapterErrorKind.precondition_failed = "precondition_failed"
as_str AdapterErrorKind.db_unreachable = "db_unreachable"
as_str AdapterErrorKind.schema_error = "schema_error"
as_str AdapterErrorKind.lock_contention = "lock_contention"
as_str AdapterErrorKind.git_error = "git_error"
as_str AdapterErrorKind.irreversible_rollback = "irreversible_rollback"
as_str AdapterErrorKind.internal_error = "internal_error"
as_str AdapterErrorKind.execution = "execution"
as_str AdapterErrorKind.protocol = "protocol"
as_str AdapterErrorKind.remote = "remote"

-- `AdapterErrorKind::code`
abbrev pub code : AdapterErrorKind → ℤ
code AdapterErrorKind.method_not_supported = neg 32601
code AdapterErrorKind.missing_secret = neg 32001
code AdapterErrorKind.secret_read_failed = neg 32002
code AdapterErrorKind.invalid_config = neg 32602
code AdapterErrorKind.precondition_failed = neg 32004
code AdapterErrorKind.db_unreachable = neg 32005
code AdapterErrorKind.schema_error = neg 32006
code AdapterErrorKind.lock_contention = neg 32007
code AdapterErrorKind.git_error = neg 32008
code AdapterErrorKind.irreversible_rollback = neg 32009
code AdapterErrorKind.internal_error = neg 32010
code AdapterErrorKind.execution = neg 32000
code AdapterErrorKind.protocol = neg 32600
code AdapterErrorKind.remote = neg 32003
