-- ===== src/SelfUpgrade/Apply.antt =====
-- The controller of a self-upgrade: apply.rs. Its warnings are left out. `first` is the byte prefix of a
-- digest, `&digest[..n.min(digest.len())]`.
use fraisier_core.Common.{
  ℕ, zero, suc, String, Bool, true, false, Option, none, some, List, [], ◌∷◌, format, length,
  Result, ok, err, Done,
}
use fraisier_core.SelfUpgrade.Types.{Error, show_upgrade, Verified, ApplyOutcome, Fs, ServiceUnit}
use fraisier_core.SelfUpgrade.Source.{Source, Net, fetch}
use fraisier_core.SelfUpgrade.Layout.{Layout, active, stage, activate, prune}

-- `struct Plan`; the timeout and the interval of the polling are in `rounds`.
pub record Plan : Type 0 where
  pub source : Source
  pub layout : Layout
  pub version : Option String
  pub keep : ℕ
  pub systemd_available : Bool

-- What the controller works on.
pub record Machine (W : Type 0) : Type 0 where
  pub fs : Fs W
  pub net : Net W
  pub unit : ServiceUnit W
  pub pid : String
  pub first : ℕ → String → String

module _ {W : Type 0} (unit : ServiceUnit W) where
  unfoldable pub healthy_if : Bool × W → Bool × W
  healthy_if (true, w) = unit.healthy w
  healthy_if (false, w) = (false, w)

  -- One round: `is_active && healthy`.
  unfoldable pub answers : W → Bool × W
  answers w = healthy_if (unit.is_active w)

  -- The end of the loop, or the result of the rounds after this one.
  unfoldable pub unless_up : Bool × W → Bool × W → Bool × W
  unless_up (true, w) later = (true, w)
  unless_up (false, w) later = later

  -- The polling loop, with the rounds that end before the timeout.
  unfoldable pub poll : ℕ → W → Bool × W
  poll zero w = (false, w)
  poll (suc rounds) w = let r = answers w in unless_up r (poll rounds r.1)

  -- What follows `restart`.
  unfoldable pub after_restart : Result String Done × W → Bool × W
  after_restart (ok _, w) = poll (unit.rounds w) w
  after_restart (err e, w) = (false, w)

  unfoldable pub bring_up : W → Bool × W
  bring_up w = after_restart (unit.restart w)

module _ {W : Type 0} (machine : Machine W) (plan : Plan) where
  -- `resolve_id`
  unfoldable pub resolve_id : Option String → String → String
  resolve_id (some version) digest = version
  resolve_id none digest = format ("sha-" ∷ machine.first 16 digest ∷ [])

  -- `notify` with the event of a manual intervention, and the outcome.
  abbrev pub intervene :
      (failed : String) (restored : Option String) (reason : String) → W → ApplyOutcome × W
  intervene failed restored reason w = (
    ApplyOutcome.manual_intervention reason,
    (machine.unit).notify
        (record {
          event = "self-upgrade-manual-intervention";
          failed = some failed;
          restored = restored;
          reason = reason;
        })
        w,
  )

  -- What follows the second `bring_up`.
  unfoldable pub after_revert : (failed prior : String) → Bool × W → ApplyOutcome × W
  after_revert failed prior (true, w) =
      let reason =
        format
          ("new binary '" ∷ failed ∷ "' failed health-check; reverted to '" ∷ prior ∷ "'" ∷ []) in
      (
        ApplyOutcome.reverted failed prior reason,
        (machine.unit).notify
            (record {
              event = "self-upgrade-reverted";
              failed = some failed;
              restored = some prior;
              reason = reason;
            })
            w,
      )
  after_revert failed prior (false, w) =
      intervene failed (some prior)
        (format (
          "new binary '" ∷ failed ∷ "' failed health-check AND the revert target '" ∷ prior
          ∷ "' is also unhealthy: manual intervention required" ∷ []))
        w

  -- What follows the second `activate`.
  unfoldable pub after_repoint : (failed prior : String) → Result Error Done × W → ApplyOutcome × W
  after_repoint failed prior (ok _, w) = after_revert failed prior (bring_up machine.unit w)
  after_repoint failed prior (err error, w) =
      intervene failed none
        (format (
          "new binary '"
          ∷ failed
          ∷ "' failed health-check and the revert to '"
          ∷ prior
          ∷ "' could not repoint the symlink: "
          ∷ show_upgrade error
          ∷ []))
        w

  unfoldable pub revert : (failed : String) (prior : Option String) → W → ApplyOutcome × W
  revert failed none w =
      intervene failed none
        (format (
          "new binary '" ∷ failed
          ∷ "' failed health-check and there is no kept-old binary to revert to" ∷ []))
        w
  revert failed (some prior) w =
      after_repoint failed prior (activate machine.fs machine.pid plan.layout prior w)

  -- How many binaries a prune removed; a prune that fails counts none.
  abbrev pub count_of : Result Error (List String) → ℕ
  count_of (ok removed) = length removed
  count_of (err error) = 0

  unfoldable pub commit : String → W → ApplyOutcome × W
  commit id w =
      let (r, w') = prune machine.fs machine.pid plan.layout plan.keep w in
      (ApplyOutcome.committed id (count_of r), w')

  -- What follows the first `bring_up`.
  unfoldable pub after_bring_up : String → Option String → Bool × W → ApplyOutcome × W
  after_bring_up id prior (true, w) = commit id w
  after_bring_up id prior (false, w) = revert id prior w

  abbrev pub abort : Error → W → ApplyOutcome × W
  abort error w = (ApplyOutcome.aborted_before_swap (show_upgrade error), w)

  -- What follows the first `activate`, `stage`, `active` and `fetch`.
  unfoldable pub after_activate : String → Option String → Result Error Done × W → ApplyOutcome × W
  after_activate id prior (ok _, w) = after_bring_up id prior (bring_up machine.unit w)
  after_activate id prior (err error, w) = abort error w

  unfoldable pub after_stage : String → Option String → Result Error String × W → ApplyOutcome × W
  after_stage id prior (ok path, w) =
      after_activate id prior (activate machine.fs machine.pid plan.layout id w)
  after_stage id prior (err error, w) = abort error w

  unfoldable pub after_active : Verified → Result Error (Option String) × W → ApplyOutcome × W
  after_active verified (ok prior, w) =
      let id = resolve_id plan.version verified.digest in
      after_stage id prior (stage machine.fs machine.pid plan.layout id verified.bytes w)
  after_active verified (err error, w) = abort error w

  unfoldable pub after_fetch : Result Error Verified × W → ApplyOutcome × W
  after_fetch (ok verified, w) = after_active verified (active machine.fs machine.pid plan.layout w)
  after_fetch (err error, w) = abort error w

  -- The guard on systemd.
  unfoldable pub apply_if : Bool → W → ApplyOutcome × W
  apply_if true w = after_fetch (fetch machine.net plan.source w)
  apply_if false w = (
    ApplyOutcome.aborted_before_swap
        "not a systemd-managed deployment: `self-upgrade apply` needs systemd to perform the coordinated restart and auto-revert",
    w,
  )

  unfoldable pub apply : W → ApplyOutcome × W
  apply = apply_if plan.systemd_available
