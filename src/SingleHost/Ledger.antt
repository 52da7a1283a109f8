-- ===== src/SingleHost/Ledger.antt =====
-- The release ledger of a single-host deploy, single_host.rs, and what the host has after a run.
use fraisier_core.Common.{◌≡◌, true, Option, ok}
use fraisier_core.Saga.Types.{SagaOutcome}
use fraisier_core.Saga.Store.{StateStore}
use fraisier_core.Saga.Driver.{Saga, Std}
use fraisier_core.SingleHost.Types.{DeployRecord, SingleHostDeploy}
use fraisier_core.SingleHost.Deploy.{Serde, prior_of}
use fraisier_core.SingleHost.Contract.{Seen, schema, live, SchemaBack, ReleasesBack}

-- A record that was written is read back.
abbrev pub RoundTrips : {Json : Type 0} → Serde Json → Type 0
RoundTrips {Json = Json} serde =
    (r : DeployRecord) → (j : Json) × (serde.to_value r ≡ ok j) × (serde.from_value j ≡ ok r)

module _ {S Json W : Type 0} (store : StateStore S Json) (std : Std S) (serde : Serde Json)
    (deploy : SingleHostDeploy W) (seen : W → Seen) (ledger : S → Option Json) where
  -- The ledger of the store says that the record is the last one committed.
  abbrev pub Reads : S → DeployRecord → Type 0
  Reads s r = prior_of store std serde deploy (ok (ledger s)) ≡ ok r

  -- How a run that started at `s` and `w` leaves the ledger and the host.
  abbrev pub Settled : S → W → SagaOutcome → S → W → Type 0
  Settled s w SagaOutcome.committed s' w' =
      (r : DeployRecord) × Reads s' r
      × ((seen w').1 ≡ (r.active, r.active))
      × (deploy.migration.owns_database ≡ true → r.revision ≡ schema deploy seen w')
  Settled s w (SagaOutcome.rolled_back failed_step reason) s' w' =
      (ledger s' ≡ ledger s)
      × SchemaBack deploy seen (schema deploy seen w) (schema deploy seen w')
      × ReleasesBack deploy seen (live deploy seen w) (seen w').1
  Settled s w (SagaOutcome.partial_rollback reason) s' w' = Unit
