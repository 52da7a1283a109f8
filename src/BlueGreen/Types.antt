-- ===== src/BlueGreen/Types.antt =====
-- The state of a blue-green deploy and its collaborators: crates/fraisier-core/src/blue_green.rs. The
-- adapters, the fleet, the probes and the hook are parameters that may change the world `W`; the
-- adapters' errors are `Err`. The deploy's context is passed to them unchanged and is left out, but for
-- its names.
use fraisier_core.Common.{
  ℕ, String, Bool, false, Option, none, List, Result, ok, err, map_err, Done,
}
use fraisier_core.Saga.Types.{SagaError}
use fraisier_core.Gate.Admit.{MigrationAdapter, PolicyGate}
use fraisier_core.Budget.{BudgetSnapshot}

-- `struct TrafficTarget` of adapter_axes.rs.
pub record TrafficTarget : Type 0 where
  pub name : String

-- `struct BgRuntime`
pub record BgRuntime : Type 0 where
  pub prior_target : Option TrafficTarget
  pub green_provisioned : Bool

-- `BgRuntime::default`
abbrev pub no_runtime : BgRuntime
no_runtime = record { prior_target = none; green_provisioned = false }

-- `trait TrafficDirector`, what the deploy calls of it.
pub record TrafficDirector (W Err : Type 0) : Type 0 where
  pub current_target : W → Result Err TrafficTarget × W
  pub switch_to : TrafficTarget → W → Result Err Done × W

-- `trait FleetOps`
pub record FleetOps (W : Type 0) : Type 0 where
  pub provision_green : W → Result String Done × W
  pub green_healthy : W → Bool × W
  pub watch_green : ℕ → W → Result String Done × W
  pub reap_green : W → Result String Done × W
  pub reap_blue : W → Result String Done × W

-- `trait DatabaseReadiness`, and the secret that names the live database.
pub record DatabaseReadiness (W Err : Type 0) : Type 0 where
  pub live_dsn : W → Result Err String × W
  pub unready : String → W → Result String (List String) × W

-- `struct BgShared`, with the migration adapter's `up`, and how an adapter's error is displayed.
pub record BgShared (W Err : Type 0) : Type 0 where
  pub fraise : String
  pub environment : String
  pub green : TrafficTarget
  pub hold : ℕ
  pub green_pool : ℕ
  pub budget_margin : ℕ
  pub migration : MigrationAdapter W Err
  pub up : W → Result Err Done × W
  pub traffic : TrafficDirector W Err
  pub fleet : FleetOps W
  pub budget : Option (W → Result String BudgetSnapshot × W)
  pub policy : PolicyGate W
  pub database_readiness : Option (DatabaseReadiness W Err)
  pub show : Err → String

-- `BgShared::failed`
abbrev pub failed : String → String → SagaError
failed = SagaError.step_failed

-- A fallible computation that changes the world.
abbrev pub Act : Type 0 → Type 0 → Type 0
Act W A = W → Result SagaError A × W

module _ {W A : Type 0} where
  abbrev pub pure : A → Act W A
  pure a w = (ok a, w)

  -- A collaborator's call, whose error becomes the step's.
  abbrev pub call : {X : Type 0} → (X → SagaError) → (W → Result X A × W) → Act W A
  call as_failure act w = let (r, w') = act w in (map_err as_failure r, w')

module _ {W A B : Type 0} where
  abbrev pub and_then : (A → Act W B) → Result SagaError A × W → Result SagaError B × W
  and_then next (ok a, w) = next a w
  and_then next (err e, w) = (err e, w)

  infixl 20 ◌>>=◌
  abbrev pub ◌>>=◌ : Act W A → (A → Act W B) → Act W B
  (act >>= next) w = and_then next (act w)
