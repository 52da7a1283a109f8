-- ===== src/Gate/Admitted.antt =====
-- What has to hold for `PolicyGate::admit` of policy.rs to let a deploy through.
use mathlib.Core.Bool.{false≢true}
use fraisier_core.Common.{
  ℕ, ◌≡◌, ◌≢◌, refl, sym, ◌∙◌, ap, ◌⊎◌, inl, inr, String, false, Option, none, some, List,
  Option-cases, Result, ok, is_ok, Done,
}
use fraisier_core.Gate.Report.{PreflightReport}
use fraisier_core.Gate.Rules.{Policy}
use fraisier_core.Gate.Decision.{
  PolicyReason, PolicyDecision, ApprovalRequest, new_request, ApprovalVerdict,
}
use fraisier_core.Gate.Evaluate.{Capabilities, Baseline, evaluate}
use fraisier_core.Gate.Admit.{PolicyGate, answer, resolve, admit}
use fraisier_core.Gate.Allowed.{Certified, evaluate-Certified}

module _ {W : Type 0} (gate : PolicyGate W) (fraise environment : String) where
  -- The hook signed the request with these reasons off, and left the world `w'`.
  pub record IsApproved (reasons : List PolicyReason) (w w' : W) : Type 0 where
    pub hook : ApprovalRequest → W → ApprovalVerdict × W
    pub wired : gate.hook ≡ some hook
    pub approver : String
    pub signed :
        hook (new_request fraise environment reasons) w ≡ (ApprovalVerdict.approved approver, w')

  refused : (w' : W) (r : Result String Done × W) → is_ok r.0 ≡ false → r ≢ (ok tt, w')
  refused w' r h e = false≢true (sym h ∙ ap (λ s. is_ok s.0) e)

  answer-ok :
      (reasons : List PolicyReason) (v : ApprovalVerdict) (w w' : W)
      → answer reasons (v, w) ≡ (ok tt, w')
      → ((approver : String) × ◌≡◌ {A = ApprovalVerdict × W}
            (v, w)
            (ApprovalVerdict.approved approver, w'))
  unfolding answer
  answer-ok reasons (ApprovalVerdict.approved approver) w w' e =
      (approver, ap (λ r. (ApprovalVerdict.approved approver, r.1)) e)
  answer-ok reasons (ApprovalVerdict.denied reason) w w' e = absurd (refused w' _ refl e)

  resolve-some :
      (hook : ApprovalRequest → W → ApprovalVerdict × W) (reasons : List PolicyReason) (w : W)
      → gate.hook ≡ some hook
      → resolve gate fraise environment (PolicyDecision.needs_approval reasons) w
        ≡ answer reasons (hook (new_request fraise environment reasons) w)
  unfolding resolve
  resolve-some hook reasons w wired = rw (wired, resolve)

  resolve-none :
      (reasons : List PolicyReason) (w : W)
      → gate.hook ≡ none
      → is_ok (resolve gate fraise environment (PolicyDecision.needs_approval reasons) w).0 ≡ false
  unfolding resolve
  resolve-none reasons w missing = rw (missing, resolve)

  resolve-ok :
      (d : PolicyDecision) (w w' : W)
      → resolve gate fraise environment d w ≡ (ok tt, w')
      → ((n : ℕ) × (d ≡ PolicyDecision.allow n) × (w' ≡ w))
        ⊎ ((reasons : List PolicyReason) × (d ≡ PolicyDecision.needs_approval reasons)
            × IsApproved reasons w w')
  unfolding resolve
  resolve-ok (PolicyDecision.allow n) w w' e = inl (n, refl, sym (ap (λ r. r.1) e))
  resolve-ok (PolicyDecision.deny reason reasons) w w' e = absurd (refused w' _ refl e)
  resolve-ok (PolicyDecision.needs_approval reasons) w w' e = elim (Option-cases gate.hook) [
    | inl missing ↦ absurd (refused w' _ (resolve-none reasons w missing) e)
    | inr (hook, wired) ↦
        let reply = hook (new_request fraise environment reasons) w in
        let (approver, signed) =
          answer-ok reasons reply.0 reply.1 w' (sym (resolve-some hook reasons w wired) ∙ e) in
        inr (
          reasons,
          refl,
          record { hook = hook; wired = wired; approver = approver; signed = signed },
        )
  ]

  -- A gate with a policy lets a deploy through only if either every change is auto-apply and nothing
  -- was asked, or the decision needs an approval and the wired hook signed off on a request that
  -- names the deploy and every reason of the decision.
  pub admit-ok :
      (policy : Policy) (baseline : Baseline) (capabilities : Capabilities)
      (report : Option PreflightReport) (w w' : W)
      → gate.policy ≡ some policy
      → admit gate fraise environment baseline capabilities report w ≡ (ok tt, w')
      → ((n : ℕ) × Certified policy baseline capabilities report n × (w' ≡ w))
        ⊎ ((reasons : List PolicyReason) × (evaluate (some policy) baseline capabilities report
              ≡ PolicyDecision.needs_approval reasons)
            × IsApproved reasons w w')
  unfolding admit
  admit-ok policy baseline capabilities report w w' configured e =
      let same : evaluate gate.policy baseline capabilities report
          ≡ evaluate (some policy) baseline capabilities report =
        ap (λ p. evaluate p baseline capabilities report) configured in
      elim (resolve-ok (evaluate gate.policy baseline capabilities report) w w' e) [
        | inl (n, allowed, same_world) ↦ inl (
          n,
          evaluate-Certified policy n baseline capabilities report (sym same ∙ allowed),
          same_world,
        )
        | inr (reasons, held, approved) ↦ inr (reasons, sym same ∙ held, approved)
      ]
