-- ===== src/Gate/Quiet.antt =====
-- What the gate leaves alone: `inspect` and `admit` of policy.rs change nothing that the adapter and
-- the approval hook do not change.
use fraisier_core.Common.{
  ◌≡◌, refl, ◌∙◌, inl, inr, String, Option, some, List, Result, ok, err, Option-cases, Bool-cases,
}
use fraisier_core.Gate.Report.{PreflightReport}
use fraisier_core.Gate.Decision.{
  PolicyReason, PolicyDecision, ApprovalRequest, ApprovalVerdict, new_request,
}
use fraisier_core.Gate.Evaluate.{Capabilities, from_advertised, Baseline, evaluate}
use fraisier_core.Gate.Admit.{
  MigrationAdapter, AdapterDescription, after_preflight, inspect_described, after_describe, inspect,
  PolicyGate, answer, resolve, admit,
}

module _ {W O : Type 0} (seen : W → O) where
  -- What is seen of the world stays.
  abbrev pub Keeps : {A : Type 0} → (W → A × W) → Type 0
  Keeps act = (w : W) → seen (act w).1 ≡ seen w

  module _ {Err : Type 0} (migration : MigrationAdapter W Err) (describe : Keeps migration.describe)
      (preflight : Keeps migration.preflight) where
    after_preflight-Keeps :
        (described : AdapterDescription) (r : Result Err PreflightReport × W)
        → seen (after_preflight migration described r).1 ≡ seen r.1
    unfolding after_preflight
    after_preflight-Keeps described (ok report, w) = refl
    after_preflight-Keeps described (err e, w) = refl

    pub inspect_described-Keeps :
        (described : AdapterDescription) → Keeps (inspect_described migration described)
    unfolding inspect_described
    inspect_described-Keeps described w =
        elim (Bool-cases (from_advertised described.capabilities).preflight) [
          | inl lints ↦
              rw (lints, inspect_described)
                (after_preflight-Keeps described (migration.preflight w) ∙ preflight w)
          | inr silent ↦ rw (silent, inspect_described) refl
        ]

    after_describe-Keeps :
        (r : Result Err AdapterDescription × W) → seen (after_describe migration r).1 ≡ seen r.1
    unfolding after_describe
    after_describe-Keeps (ok described, w) = inspect_described-Keeps described w
    after_describe-Keeps (err e, w) = refl

    pub inspect-Keeps : Keeps (inspect migration)
    unfolding inspect
    inspect-Keeps w = after_describe-Keeps (migration.describe w) ∙ describe w

  module _ (gate : PolicyGate W)
      (asks : (hook : ApprovalRequest → W → ApprovalVerdict × W)
        → gate.hook ≡ some hook
        → (request : ApprovalRequest) → Keeps (hook request))
      (fraise environment : String) where
    answer-Keeps :
        (reasons : List PolicyReason) (r : ApprovalVerdict × W)
        → seen (answer reasons r).1 ≡ seen r.1
    unfolding answer
    answer-Keeps reasons (ApprovalVerdict.approved approver, w) = refl
    answer-Keeps reasons (ApprovalVerdict.denied reason, w) = refl

    resolve-Keeps : (d : PolicyDecision) → Keeps (resolve gate fraise environment d)
    unfolding resolve
    resolve-Keeps (PolicyDecision.allow n) w = refl
    resolve-Keeps (PolicyDecision.deny reason reasons) w = refl
    resolve-Keeps (PolicyDecision.needs_approval reasons) w = elim (Option-cases gate.hook) [
      | inl missing ↦ rw (missing, resolve) refl
      | inr (hook, wired) ↦
          rw (wired, resolve)
            (answer-Keeps reasons (hook (new_request fraise environment reasons) w)
              ∙ asks hook wired (new_request fraise environment reasons) w)
    ]

    pub admit-Keeps :
        (baseline : Baseline) (capabilities : Capabilities) (report : Option PreflightReport)
        → Keeps (admit gate fraise environment baseline capabilities report)
    unfolding admit
    admit-Keeps baseline capabilities report w =
        resolve-Keeps (evaluate gate.policy baseline capabilities report) w
