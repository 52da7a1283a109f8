-- ===== src/SelfUpgrade/Outcomes.antt =====
-- How a self-upgrade ends: apply.rs.
use fraisier_core.Common.{
  ℕ, suc, ◌≡◌, refl, sym, ◌∙◌, ap, subst, inl, inr, String, Bool, true, false, Option, none, some,
  [], ◌∷◌, ◌++◌, ◌+◌, ◌≤◌, arith, Result, ok, err, Done,
}
use fraisier_core.SelfUpgrade.Types.{Error, Verified, FailurePayload, ApplyOutcome}
use fraisier_core.SelfUpgrade.Layout.{active, staged_path, activate}
use fraisier_core.SelfUpgrade.Apply.{
  Plan, Machine, bring_up, resolve_id, after_revert, after_repoint, revert, commit, after_bring_up,
  after_activate, after_stage, after_active, after_fetch, apply_if, apply,
}
use fraisier_core.SelfUpgrade.Laws.{Calls, link, seen, IsMachine}
use fraisier_core.SelfUpgrade.Links.{
  fetch-Keeps, active-Keeps, active-link, stage-Keeps, Points, activate-Points, bring_up-restarts,
}
use fraisier_core.SelfUpgrade.Pruning.{prune-Keeps}

-- So many restarts in all, and one notification more than before.
abbrev pub Notified :
    Option String → ℕ → FailurePayload → Option String × Calls → Option String × Calls → Type 0
Notified target restarts payload before after =
    after ≡ (target, (restarts, before.1.1 ++ payload ∷ []))

module _ {W : Type 0} (machine : Machine W) (plan : Plan) (links : String → W → Option String)
    (calls : W → Calls) (laws : IsMachine machine plan.layout links calls) where
  abbrev pub look : W → Option String × Calls
  look = seen machine plan.layout links calls

  -- The link names nothing, or a binary of the layout's own directory.
  abbrev pub IsTidy : W → Type 0
  IsTidy w =
      (target : String)
      → link machine plan.layout links calls w ≡ some target
      → (prior : String) × (target ≡ staged_path machine.fs machine.pid plan.layout prior)
        × ((machine.fs).file_name target ≡ some prior)

  -- How an upgrade ends, between what was seen before and what is seen after.
  abbrev pub Ends : Option String × Calls → ApplyOutcome → Option String × Calls → Type 0
  Ends before (ApplyOutcome.committed id pruned) after =
      after
      ≡ (some (staged_path machine.fs machine.pid plan.layout id), (suc before.1.0, before.1.1))
  Ends before (ApplyOutcome.reverted failed restored reason) after =
      (before.0 ≡ some (staged_path machine.fs machine.pid plan.layout restored))
      × Notified before.0 (suc (suc before.1.0))
          (record {
            event = "self-upgrade-reverted";
            failed = some failed;
            restored = some restored;
            reason = reason;
          })
          before after
  Ends before (ApplyOutcome.manual_intervention reason) after =
      (target : Option String) × (restarts : ℕ) × (restarts ≤ before.1.0 + 2)
      × (payload : FailurePayload) × (payload.reason ≡ reason)
      × Notified target restarts payload before after
  Ends before (ApplyOutcome.aborted_before_swap reason) after = after ≡ before

  -- The prior binary, as `active` answers.
  abbrev Prior : Option String → Option String → Type 0
  Prior before none = Unit
  Prior before (some prior) = before ≡ some (staged_path machine.fs machine.pid plan.layout prior)

  notify_after :
      (w : W) (payload : FailurePayload) (target : Option String) (restarts : ℕ)
      (before : Option String × Calls)
      → look w ≡ (target, (restarts, before.1.1))
      → Notified target restarts payload before (look ((machine.unit).notify payload w))
  notify_after w payload target restarts before e =
      laws.notifying payload w ∙ ap (λ s. (s.0, (s.1.0, s.1.1 ++ payload ∷ []))) e

  after_revert-Ends :
      (failed prior : String) (before : Option String × Calls) (r : Bool × W)
      → before.0 ≡ some (staged_path machine.fs machine.pid plan.layout prior)
      → look r.1 ≡ (before.0, (suc (suc before.1.0), before.1.1))
      → Ends before
          (after_revert machine plan failed prior r).0
          (look (after_revert machine plan failed prior r).1)
  unfolding after_revert
  after_revert-Ends failed prior before (true, w) known e =
      (known, notify_after w _ before.0 (suc (suc before.1.0)) before e)
  after_revert-Ends failed prior before (false, w) known e = (
    before.0,
    suc (suc before.1.0),
    omega arith,
    _,
    refl,
    notify_after w _ before.0 (suc (suc before.1.0)) before e,
  )

  after_repoint-Ends :
      (failed prior : String) (before : Option String × Calls) (w : W) (r : Result Error Done × W)
      → before.0 ≡ some (staged_path machine.fs machine.pid plan.layout prior)
      → (look w).1 ≡ (suc before.1.0, before.1.1)
      → Points machine plan.layout links calls laws
          (staged_path machine.fs machine.pid plan.layout prior)
          (look w)
          r
      → Ends before
          (after_repoint machine plan failed prior r).0
          (look (after_repoint machine plan failed prior r).1)
  unfolding after_repoint
  after_repoint-Ends failed prior before w (ok _, w') known once points =
      after_revert-Ends failed prior before (bring_up machine.unit w') known (
        bring_up-restarts machine plan.layout links calls laws w'
        ∙ ap (λ s. (s.0, (suc s.1.0, s.1.1))) points
        ∙ ap (λ c. (some (staged_path machine.fs machine.pid plan.layout prior), (suc c.0, c.1)))
            once
        ∙ ap (λ o. (o, (suc (suc before.1.0), before.1.1))) (sym known))
  after_repoint-Ends failed prior before w (err e, w') known once points = (
    _,
    suc before.1.0,
    omega arith,
    _,
    refl,
    notify_after w' _ (look w).0 (suc before.1.0) before (points ∙ ap (λ c. ((look w).0, c)) once),
  )

  revert-Ends :
      (failed : String) (o : Option String) (before : Option String × Calls) (w : W)
      → Prior before.0 o
      → (look w).1 ≡ (suc before.1.0, before.1.1)
      → Ends before (revert machine plan failed o w).0 (look (revert machine plan failed o w).1)
  unfolding revert
  revert-Ends failed none before w known once = (
    _,
    suc before.1.0,
    omega arith,
    _,
    refl,
    notify_after w _ (look w).0 (suc before.1.0) before (ap (λ c. ((look w).0, c)) once),
  )
  revert-Ends failed (some prior) before w known once =
      after_repoint-Ends failed prior before w _ known once
        (activate-Points machine plan.layout links calls laws prior w)

  after_bring_up-Ends :
      (id : String) (o : Option String) (before : Option String × Calls) (r : Bool × W)
      → Prior before.0 o
      → look r.1
        ≡ (some (staged_path machine.fs machine.pid plan.layout id), (suc before.1.0, before.1.1))
      → Ends before
          (after_bring_up machine plan id o r).0
          (look (after_bring_up machine plan id o r).1)
  unfolding after_bring_up commit
  after_bring_up-Ends id o before (true, w) known e =
      prune-Keeps machine plan.layout links calls laws plan.keep w ∙ e
  after_bring_up-Ends id o before (false, w) known e =
      revert-Ends id o before w known (ap (λ s. s.1) e)

  after_activate-Ends :
      (id : String) (o : Option String) (before : Option String × Calls) (r : Result Error Done × W)
      → Prior before.0 o
      → Points machine plan.layout links calls laws
          (staged_path machine.fs machine.pid plan.layout id)
          before
          r
      → Ends before
          (after_activate machine plan id o r).0
          (look (after_activate machine plan id o r).1)
  unfolding after_activate
  after_activate-Ends id o before (ok _, w) known points =
      after_bring_up-Ends id o before (bring_up machine.unit w) known (
        bring_up-restarts machine plan.layout links calls laws w
        ∙ ap (λ s. (s.0, (suc s.1.0, s.1.1))) points)
  after_activate-Ends id o before (err e, w) known points = points

  after_stage-Ends :
      (id : String) (o : Option String) (before : Option String × Calls)
      (r : Result Error String × W)
      → Prior before.0 o
      → look r.1 ≡ before
      → Ends before (after_stage machine plan id o r).0 (look (after_stage machine plan id o r).1)
  unfolding after_stage
  after_stage-Ends id o before (ok path, w) known e =
      after_activate-Ends id o before (activate machine.fs machine.pid plan.layout id w) known (
        subst
          (λ b.
            Points machine plan.layout links calls laws
              (staged_path machine.fs machine.pid plan.layout id) b
              (activate machine.fs machine.pid plan.layout id w))
          e (activate-Points machine plan.layout links calls laws id w))
  after_stage-Ends id o before (err x, w) known e = e

  after_active-Ends :
      (verified : Verified) (before : Option String × Calls) (r : Result Error (Option String) × W)
      → ((o : Option String) → r.0 ≡ ok o → Prior before.0 o)
      → look r.1 ≡ before
      → Ends before
          (after_active machine plan verified r).0
          (look (after_active machine plan verified r).1)
  unfolding after_active
  after_active-Ends verified before (ok o, w) known e =
      after_stage-Ends _ o before _ (known o refl) (
        stage-Keeps machine plan.layout links calls laws
          (resolve_id machine plan plan.version verified.digest) verified.bytes w
        ∙ e)
  after_active-Ends verified before (err x, w) known e = e

  -- The name that `active` answers is that of the binary that the link names.
  active-Prior :
      (w w' : W) (o : Option String)
      → IsTidy w
      → active machine.fs machine.pid plan.layout w ≡ (ok o, w')
      → Prior (link machine plan.layout links calls w) o
  active-Prior w w' none tidy q = tt
  active-Prior w w' (some prior) tidy q =
      elim (active-link machine plan.layout links calls laws w w' (some prior) q) [
        | inl (absent, nothing) ↦ cc nothing
        | inr (target, named, known) ↦
            let (staged, at, is_named) = tidy target named in
            let same : prior ≡ staged = cc (known, is_named) in
            named
            ∙ ap some at
            ∙ ap (λ id. some (staged_path machine.fs machine.pid plan.layout id)) (sym same)
      ]

  after_fetch-Ends :
      (w w' : W) (r : Result Error Verified)
      → IsTidy w'
      → look w' ≡ look w
      → Ends
          (look w)
          (after_fetch machine plan (r, w')).0
          (look (after_fetch machine plan (r, w')).1)
  unfolding after_fetch
  after_fetch-Ends w w' (ok verified) tidy' e =
      after_active-Ends verified (look w) (active machine.fs machine.pid plan.layout w')
        (λ o q.
          subst (λ before. Prior before o) (ap (λ s. s.0) e)
            (active-Prior w' _ o tidy'
              (ap (λ r. (r, (active machine.fs machine.pid plan.layout w').1)) q)))
        (active-Keeps machine plan.layout links calls laws w' ∙ e)
  after_fetch-Ends w w' (err x) tidy' e = e

  apply_if-Ends :
      (available : Bool) (w : W)
      → IsTidy w
      → Ends
          (look w)
          (apply_if machine plan available w).0
          (look (apply_if machine plan available w).1)
  unfolding apply_if
  apply_if-Ends true w tidy =
      let same = fetch-Keeps machine plan.layout links calls laws plan.source w in
      after_fetch-Ends w _ _ (λ target e. tidy target (sym (ap (λ s. s.0) same) ∙ e)) same
  apply_if-Ends false w tidy = refl

  -- On a machine that keeps its contract, and where the link names nothing or a staged binary, a
  -- self-upgrade ends in one of four ways. Committed: the link names the new binary, after one restart
  -- and no notification. Reverted: the link names what it named before, after two restarts, and the
  -- one notification says which binary failed and which was restored. Manual intervention: at most two
  -- restarts, and one notification with the reason. Aborted before the swap: the link is what it was,
  -- with no restart and no notification.
  pub apply-Ends :
      (w : W) → IsTidy w → Ends (look w) (apply machine plan w).0 (look (apply machine plan w).1)
  unfolding apply
  apply-Ends w tidy = apply_if-Ends plan.systemd_available w tidy
