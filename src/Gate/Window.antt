-- ===== src/Gate/Window.antt =====
-- The always-on rule of a blue-green deploy: `baseline_verdict` of policy.rs.
use mathlib.Core.Bool.{false≢true}
use fraisier_core.Common.{
  ◌≡◌, ◌≢◌, refl, sym, ◌∙◌, ap, inl, inr, String, Bool, true, false, Option, none, some, List, [],
  Bool-cases, Option-cases,
}
use fraisier_core.Gate.Report.{PreflightReport}
use fraisier_core.Gate.Rules.{Policy}
use fraisier_core.Gate.Decision.{PolicyDecision, PolicyReason}
use fraisier_core.Gate.Evaluate.{Capabilities, Baseline, window_verdict, baseline_verdict, evaluate}
use fraisier_core.Gate.Verdicts.{evaluate-refused}

pub record IsWindowSafe (capabilities : Capabilities) (report : Option PreflightReport)
    : Type 0 where
  pub lints : capabilities.preflight ≡ true
  pub classifies : capabilities.window_safe ≡ true
  pub certified : (r : PreflightReport) × (report ≡ some r) × (r.window_safe ≡ some true)

abbrev is_none : {A : Type 0} → Option A → Bool
is_none none = true
is_none (some a) = false

refusing : {A : Type 0} (o : Option A) → is_none o ≡ false → o ≢ none
refusing o h e = false≢true (sym h ∙ ap is_none e)

window_verdict-none : (o : Option Bool) → window_verdict o ≡ none → o ≡ some true
unfolding window_verdict
window_verdict-none (some true) e = refl
window_verdict-none (some false) e = absurd (refusing _ refl e)
window_verdict-none none e = absurd (refusing _ refl e)

module _ (capabilities : Capabilities) where
  verdict_of :
      (r : PreflightReport)
      → capabilities.preflight ≡ true
      → capabilities.window_safe ≡ true
      → baseline_verdict Baseline.window_safety capabilities (some r) ≡ window_verdict r.window_safe
  unfolding baseline_verdict
  verdict_of r lints classifies = rw (lints, classifies)

  window_rest :
      (report : Option PreflightReport)
      → capabilities.preflight ≡ true
      → capabilities.window_safe ≡ true
      → baseline_verdict Baseline.window_safety capabilities report ≡ none
      → IsWindowSafe capabilities report
  unfolding baseline_verdict
  window_rest none lints classifies e = absurd (refusing _ (rw (lints, classifies)) e)
  window_rest (some r) lints classifies e = record {
    lints = lints;
    classifies = classifies;
    certified =
        (r, refl, window_verdict-none r.window_safe (sym (verdict_of r lints classifies) ∙ e));
  }

  unlinted :
      (report : Option PreflightReport)
      → capabilities.preflight ≡ false
      → is_none (baseline_verdict Baseline.window_safety capabilities report) ≡ false
  unfolding baseline_verdict
  unlinted report h = rw h

  unclassifying :
      (report : Option PreflightReport)
      → capabilities.preflight ≡ true
      → capabilities.window_safe ≡ false
      → is_none (baseline_verdict Baseline.window_safety capabilities report) ≡ false
  unfolding baseline_verdict
  unclassifying report lints h = rw (lints, h)

  baseline_verdict-IsWindowSafe :
      (report : Option PreflightReport)
      → baseline_verdict Baseline.window_safety capabilities report ≡ none
      → IsWindowSafe capabilities report
  baseline_verdict-IsWindowSafe report e = elim (Bool-cases capabilities.preflight) [
    | inl lints ↦ elim (Bool-cases capabilities.window_safe) [
      | inl classifies ↦ window_rest report lints classifies e
      | inr h ↦ absurd (refusing _ (unclassifying report lints h) e)
    ]
    | inr h ↦ absurd (refusing _ (unlinted report h) e)
  ]

  -- A blue-green deploy that is not denied, with a policy or without one, has an adapter that lints
  -- and can classify every statement, and a report that certifies the window.
  pub evaluate-IsWindowSafe :
      (policy : Option Policy) (report : Option PreflightReport)
      → ((reason : String) (reasons : List PolicyReason)
          → evaluate policy Baseline.window_safety capabilities report
            ≢ PolicyDecision.deny reason reasons)
      → IsWindowSafe capabilities report
  evaluate-IsWindowSafe policy report admitted =
      elim (Option-cases (baseline_verdict Baseline.window_safety capabilities report)) [
        | inl passes ↦ baseline_verdict-IsWindowSafe report passes
        | inr (reason, refused) ↦ absurd (
            admitted reason []
              (evaluate-refused policy Baseline.window_safety capabilities report reason refused))
      ]
