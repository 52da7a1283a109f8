-- ===== src/Gate/Admit.antt =====
-- `inspect` and `PolicyGate::admit` of crates/fraisier-core/src/policy.rs. The adapter and the
-- approval hook may change the world `W`. Log records are left out.
use fraisier_core.Common.{
  ℕ, String, true, false, Option, none, some, List, [], ◌∷◌, format, Result, ok, err, Done,
}
use fraisier_core.Gate.Report.{PreflightReport}
use fraisier_core.Gate.Rules.{Policy}
use fraisier_core.Gate.Decision.{
  PolicyReason, PolicyDecision, ApprovalRequest, new_request, ApprovalVerdict, summarise,
}
use fraisier_core.Gate.Evaluate.{Capabilities, from_advertised, Baseline, evaluate}

-- `struct AdapterDescription` of adapter_axes.rs.
pub record AdapterDescription : Type 0 where
  pub name : String
  pub version : String
  pub protocol_version : ℕ
  pub capabilities : List String

-- What `inspect` calls of a migration adapter, whose errors are `Err`.
pub record MigrationAdapter (W Err : Type 0) : Type 0 where
  pub describe : W → Result Err AdapterDescription × W
  pub preflight : W → Result Err PreflightReport × W

-- `struct Inspection`
pub record Inspection : Type 0 where
  pub adapter : Option AdapterDescription
  pub capabilities : Capabilities
  pub report : Option PreflightReport

module _ {W Err : Type 0} (migration : MigrationAdapter W Err) where
  unfoldable pub inspected : AdapterDescription → Option PreflightReport → Inspection
  inspected described report = record {
    adapter = some described;
    capabilities = from_advertised described.capabilities;
    report = report;
  }

  unfoldable pub after_preflight :
      AdapterDescription → Result Err PreflightReport × W → Result Err Inspection × W
  after_preflight described (ok report, w) = (ok (inspected described (some report)), w)
  after_preflight described (err error, w) = (err error, w)

  -- `inspect_described`
  unfoldable pub inspect_described : AdapterDescription → W → Result Err Inspection × W
  inspect_described described w = elim (from_advertised described.capabilities).preflight [
    | true ↦ after_preflight described (migration.preflight w)
    | false ↦ (ok (inspected described none), w)
  ]

  unfoldable pub after_describe : Result Err AdapterDescription × W → Result Err Inspection × W
  after_describe (ok described, w) = inspect_described described w
  after_describe (err error, w) = (err error, w)

  -- `inspect`
  unfoldable pub inspect : W → Result Err Inspection × W
  inspect w = after_describe (migration.describe w)

-- `struct PolicyGate`
pub record PolicyGate (W : Type 0) : Type 0 where
  pub policy : Option Policy
  pub hook : Option (ApprovalRequest → W → ApprovalVerdict × W)

-- `refuse`
abbrev pub refuse : String → String
refuse reason = format ("policy refused:" ∷ " " ∷ reason ∷ [])

-- What follows the hook's answer to a request with these reasons.
unfoldable pub answer :
    {W : Type 0} → List PolicyReason → ApprovalVerdict × W → Result String Done × W
answer reasons (ApprovalVerdict.approved approver, w) = (ok tt, w)
answer reasons (ApprovalVerdict.denied reason, w) = (
  err (refuse (format ("approval was refused for " ∷ summarise reasons ∷ ": " ∷ reason ∷ []))),
  w,
)

-- The `match` of `admit`, for a deploy of `fraise` to `environment`.
module _ {W : Type 0} (gate : PolicyGate W) (fraise environment : String) where
  unfoldable pub resolve : PolicyDecision → W → Result String Done × W
  resolve (PolicyDecision.allow changes) w = (ok tt, w)
  resolve (PolicyDecision.deny reason reasons) w = (err (refuse reason), w)
  resolve (PolicyDecision.needs_approval reasons) w = elim gate.hook [
    | none ↦ (
      err (
          refuse
            "approval is required, and the policy declares an approval hook that was never wired into the deploy"),
      w,
    )
    | some hook ↦ answer reasons (hook (new_request fraise environment reasons) w)
  ]

  -- `PolicyGate::admit`
  unfoldable pub admit :
      Baseline → Capabilities → Option PreflightReport → W → Result String Done × W
  admit baseline capabilities report w =
      resolve (evaluate gate.policy baseline capabilities report) w
