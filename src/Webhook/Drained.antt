-- ===== src/Webhook/Drained.antt =====
-- How a drain ends: drain.rs.
use mathlib.Core.Bool.{false≢true}
use fraisier_core.Common.{
  ℕ, zero, suc, ◌+◌, ◌-◌, ◌≤◌, ◌<◌, ◌≡◌, ◌≢◌, refl, sym, ◌∙◌, ap, String, Bool, true, false, Option,
  none, some, List, [], ◌∷◌, leb, leb→le, le→leb, arith, ok,
}
use fraisier_core.Gate.Quiet.{Keeps}
use fraisier_core.Webhook.Drain.{
  DrainTuning, DrainOutcome, Server, judge, drain_loop, drain_from, drain_in_flight,
}

module _ {W : Type 0} (server : Server W) (tuning : DrainTuning) (flag : W → Bool) where
  -- A sleep lasts at least as long as asked, the clock does not go back while the locks are probed, and
  -- the flag is up once it was written and down once it was removed.
  pub record IsServer : Type 0 where
    pub sleeps : (d : ℕ) (w : W) → server.now w + d ≤ server.now (server.sleep d w)
    pub probes : (w : W) → server.now w ≤ server.now (server.in_flight w).1
    pub raises : (w w' : W) → server.write_flag w ≡ (ok tt, w') → flag w' ≡ true
    pub lowers : (w w' : W) → server.remove_flag w ≡ (ok tt, w') → flag w' ≡ false
    pub sleeping : (d : ℕ) (w : W) → flag (server.sleep d w) ≡ flag w
    pub probing : Keeps flag server.in_flight

  -- How a drain ends whose clock started at `start`.
  abbrev pub Ended : (start : ℕ) → DrainOutcome → W → Type 0
  Ended start DrainOutcome.drained w' = (flag w' ≡ true) × (w : W) × (server.in_flight w ≡ ([], w'))
  Ended start (DrainOutcome.timed_out held) w' =
      (w w₁ : W) × (server.in_flight w ≡ (held, w₁))
      × (held ≢ [])
      × (start + tuning.timeout ≤ server.now w₁)
      × (server.remove_flag w₁ ≡ ((server.remove_flag w₁).0, w'))
      × ((server.remove_flag w₁).0 ≡ ok tt → flag w' ≡ false)

  abbrev DoneWith : (start : ℕ) → Option DrainOutcome × W → Type 0
  DoneWith start (none, w) = ⊥
  DoneWith start (some outcome, w) = Ended start outcome w

  module _ (laws : IsServer) (patient : 0 < tuning.poll) where
    judge-Ends :
        (start : ℕ) (w : W) (later : Option DrainOutcome × W) (probed : List String × W)
        → server.in_flight w ≡ probed
        → flag w ≡ true
        → (leb tuning.timeout (server.now probed.1 - start) ≡ false → DoneWith start later)
        → start ≤ server.now probed.1
        → DoneWith start (judge server tuning start later probed)
    unfolding judge
    judge-Ends start w later ([], w₁) e up rest le =
        (ap (λ r. flag r.1) (sym e) ∙ laws.probing w ∙ up, w, e)
    judge-Ends start w later (lock ∷ locks, w₁) e up rest le =
        go (leb tuning.timeout (server.now w₁ - start)) refl
      where
        go :
            (over : Bool)
            → leb tuning.timeout (server.now w₁ - start) ≡ over
            → DoneWith start (elim over as (λ x. Option DrainOutcome × W) [
              | true ↦ (some (DrainOutcome.timed_out (lock ∷ locks)), (server.remove_flag w₁).1)
              | false ↦ later
            ])
        go true h =
            let long = leb→le tuning.timeout (server.now w₁ - start) h in
            (
              w,
              w₁,
              e,
              λ k. cc k,
              omega arith,
              refl,
              λ k. laws.lowers w₁ _ (ap (λ r. (r, (server.remove_flag w₁).1)) k),
            )
        go false h = rest h

    drain_loop-Ends :
        (fuel start : ℕ) (w : W)
        → flag w ≡ true
        → start ≤ server.now w
        → start + tuning.timeout ≤ server.now w + fuel
        → DoneWith start (drain_loop server tuning (suc fuel) start w)
    unfolding drain_loop
    drain_loop-Ends zero start w up le enough =
        let probed = laws.probes w in
        judge-Ends start w _ (server.in_flight w) refl up
          (λ h.
            let over =
              le→leb tuning.timeout (server.now (server.in_flight w).1 - start) (omega arith) in
            absurd (false≢true (sym h ∙ over)))
          (omega arith)
    drain_loop-Ends (suc fuel) start w up le enough =
        let probed = laws.probes w in
        let slept = laws.sleeps tuning.poll (server.in_flight w).1 in
        judge-Ends start w _ (server.in_flight w) refl up
          (λ h.
            drain_loop-Ends fuel start (server.sleep tuning.poll (server.in_flight w).1)
              (laws.sleeping tuning.poll (server.in_flight w).1 ∙ laws.probing w ∙ up) (omega arith)
              (omega arith))
          (omega arith)

    settled :
        (start : ℕ) (r : Option DrainOutcome × W)
        → DoneWith start r
        → (outcome : DrainOutcome) × (r.0 ≡ some outcome) × Ended start outcome r.1
    settled start (none, w) h = absurd h
    settled start (some outcome, w) h = (outcome, refl, h)

    -- Where the flag can be written, a sleep lasts as long as asked, the clock does not go back and the
    -- polling interval is not zero, a drain ends, within as many rounds as the timeout has units and one
    -- more, whatever the deploys do: drained, with no lock held at the last probe and the flag up; or
    -- timed out, with the locks of the last probe, not before the timeout, and after the flag's removal.
    pub drain_in_flight-Ends :
        (w w₁ : W)
        → server.write_flag w ≡ (ok tt, w₁)
        → (outcome : DrainOutcome) × (w' : W) × (drain_in_flight server tuning
              (suc tuning.timeout)
              w
            ≡ (ok (some outcome), w'))
          × Ended (server.now (server.sleep tuning.settle w₁)) outcome w'
    unfolding drain_in_flight drain_from
    drain_in_flight-Ends w w₁ e =
        let w₂ = server.sleep tuning.settle w₁ in
        let (outcome, q, ended) =
          settled (server.now w₂) (drain_loop server tuning (suc tuning.timeout) (server.now w₂) w₂)
            (drain_loop-Ends tuning.timeout (server.now w₂) w₂
              (laws.sleeping tuning.settle w₁ ∙ laws.raises w w₁ e) (omega arith) (omega arith)) in
        (
          outcome,
          _,
          rw e (
              ap (λ o. (ok o, (drain_loop server tuning (suc tuning.timeout) (server.now w₂) w₂).1))
                q),
          ended,
        )
