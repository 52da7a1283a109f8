-- ===== src/Webhook/Drain.antt =====
-- Draining before a restart: drain.rs. The clock and the durations count the same units; the loop runs
-- on fuel and has no result without it.
use fraisier_core.Common.{
  ℕ, zero, suc, ◌-◌, String, true, false, Option, none, some, List, [], ◌∷◌, leb, Result, ok, err,
  Done,
}

pub record DrainTuning : Type 0 where
  pub timeout : ℕ
  pub poll : ℕ
  pub settle : ℕ

-- `DrainTuning::default`, in seconds.
abbrev pub default : DrainTuning
default = record { timeout = 600; poll = 1; settle = 2 }

pub data DrainOutcome : Type 0 where
  drained : DrainOutcome
  timed_out : (held : List String) → DrainOutcome

-- What the drain uses: the flag file, the clock, and the probe of the locks held.
pub record Server (W : Type 0) : Type 0 where
  pub write_flag : W → Result String Done × W
  pub remove_flag : W → Result String Done × W
  pub sleep : ℕ → W → W
  pub now : W → ℕ
  pub in_flight : W → List String × W

module _ {W : Type 0} (server : Server W) (tuning : DrainTuning) where
  -- What follows one probe: the end of the drain, or the rounds after this one.
  unfoldable pub judge :
      (start : ℕ) → Option DrainOutcome × W → List String × W → Option DrainOutcome × W
  judge start later ([], w) = (some DrainOutcome.drained, w)
  judge start later (lock ∷ locks, w) = elim (leb tuning.timeout (server.now w - start)) [
    | true ↦ (some (DrainOutcome.timed_out (lock ∷ locks)), (server.remove_flag w).1)
    | false ↦ later
  ]

  unfoldable pub drain_loop : (fuel start : ℕ) → W → Option DrainOutcome × W
  drain_loop zero start w = (none, w)
  drain_loop (suc fuel) start w =
      let probed = server.in_flight w in
      judge start (drain_loop fuel start (server.sleep tuning.poll probed.1)) probed

  -- The loop after the settle window.
  abbrev pub settle_then : ℕ → W → Option DrainOutcome × W
  settle_then fuel w = drain_loop fuel (server.now w) w

  unfoldable pub drain_from : ℕ → Result String Done × W → Result String (Option DrainOutcome) × W
  drain_from fuel (ok _, w) =
      let (outcome, w') = settle_then fuel (server.sleep tuning.settle w) in (ok outcome, w')
  drain_from fuel (err e, w) = (err e, w)

  -- `drain_in_flight`
  unfoldable pub drain_in_flight : ℕ → W → Result String (Option DrainOutcome) × W
  drain_in_flight fuel w = drain_from fuel (server.write_flag w)
