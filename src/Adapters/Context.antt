-- ===== src/Adapters/Context.antt =====
-- The context that every adapter call carries, `AdapterCtx` of adapter_axes.rs, less the free-form
-- `settings`. A path is its text.
use fraisier_core.Common.{String, Option, none, some, [], Result, ok, err}
use fraisier_core.Common.Map.{Map, lookup, insert}
use fraisier_core.Adapters.Errors.{AdapterError, missing_secret, secret_read_failed}

-- `struct Revision`
abbrev pub Revision : Type 0
Revision = String

-- `struct HostId`
abbrev pub HostId : Type 0
HostId = String

pub record ArtifactRef : Type 0 where
  pub id : String
  pub checksum : Option String

pub record StagedArtifact : Type 0 where
  pub artifact : ArtifactRef
  pub path : String

pub record AdapterCtx : Type 0 where
  pub fraise : String
  pub environment : String
  pub host : Option HostId
  pub workdir : String
  pub migrations_path : Option String
  pub env_secrets : Map String
  pub resolved_secrets : Map String
  pub previous_revision : Option Revision
  pub artifact_ref : Option ArtifactRef

-- `AdapterCtx::new`
abbrev pub new : String → String → AdapterCtx
new fraise environment = record {
  fraise = fraise;
  environment = environment;
  host = none;
  workdir = ".";
  migrations_path = none;
  env_secrets = [];
  resolved_secrets = [];
  previous_revision = none;
  artifact_ref = none;
}

abbrev pub with_resolved_secret : String → String → AdapterCtx → AdapterCtx
with_resolved_secret logical value ctx = record ctx {
  resolved_secrets = insert logical value ctx.resolved_secrets;
}

-- `std::env::var`: a variable's value, or how its absence is displayed.
abbrev pub Env : Type 0
Env = String → Result String String

module _ (env : Env) (logical : String) where
  unfoldable pub read_source : Option String → Result AdapterError String
  read_source none = err (missing_secret logical)
  read_source (some source) = elim (env source) [
    | ok value ↦ ok value
    | err cause ↦ err (secret_read_failed logical source cause)
  ]

  -- What follows the search in the resolved secrets.
  unfoldable pub resolved_or : Option String → Option String → Result AdapterError String
  resolved_or (some value) declared = ok value
  resolved_or none declared = read_source declared

  -- `AdapterCtx::secret`
  unfoldable pub secret : AdapterCtx → Result AdapterError String
  secret ctx = resolved_or (lookup logical ctx.resolved_secrets) (lookup logical ctx.env_secrets)
