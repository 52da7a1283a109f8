-- ===== src/MultiHost/Samples.antt =====
-- A rollout over small hosts: its theorems at them.
use fraisier_core.Common.{
  ◌≡◌, refl, sym, ap, Bool, true, false, none, some, List, [], ◌∷◌, Result, ok, err,
}
use fraisier_core.Common.Map.{Map, lookup}
use fraisier_core.Adapters.Errors.{AdapterError}
use fraisier_core.Adapters.Context.{StagedArtifact, new}
use fraisier_core.MultiHost.Batches.{HostEntry, RolloutStrategy, split_chunks, chunks, plan_batches}
use fraisier_core.MultiHost.Cut.{concat, Allowed, plan_batches-Allowed}
use fraisier_core.MultiHost.Host.{
  LbState, LbMembership, HostProgress, no_progress, RolloutShared, judge_host, after_check,
  after_restart, after_activate, activate_staged, after_drain, advance_host, finish_restore,
  restarted_prior, activated_prior, activate_prior, restore_release, take_out, restore_from,
  restore_host,
}
use fraisier_core.MultiHost.Contract.{Release, IsHost}
use fraisier_core.MultiHost.Advanced.{Advanced, advance_host-Advanced}
use fraisier_core.MultiHost.Returned.{Returned, restore_host-advance_host}

abbrev web1 : HostEntry
web1 = record { host = "web-1"; address = "10.0.0.1" }

abbrev web2 : HostEntry
web2 = record { host = "web-2"; address = "10.0.0.2" }

abbrev web3 : HostEntry
web3 = record { host = "web-3"; address = "10.0.0.3" }

abbrev fleet : List HostEntry
fleet = web1 ∷ web2 ∷ web3 ∷ []

two_at_a_time :
    plan_batches (RolloutStrategy.rolling 2) fleet ≡ (web1 ∷ web2 ∷ []) ∷ (web3 ∷ []) ∷ []
unfolding plan_batches chunks split_chunks
two_at_a_time = refl

none_is_one :
    plan_batches (RolloutStrategy.rolling 0) fleet ≡ (web1 ∷ []) ∷ (web2 ∷ []) ∷ (web3 ∷ []) ∷ []
unfolding plan_batches chunks split_chunks
none_is_one = refl

plan_batches-Allowed_example :
    (concat (plan_batches (RolloutStrategy.rolling 2) fleet) ≡ fleet)
    × Allowed (RolloutStrategy.rolling 2) fleet (plan_batches (RolloutStrategy.rolling 2) fleet)
plan_batches-Allowed_example = plan_batches-Allowed (RolloutStrategy.rolling 2) fleet

-- A host: its membership and its releases.
abbrev World : Type 0
World = LbMembership × Release

abbrev pooled : LbMembership
pooled = record { state = LbState.in_pool; weight = some 100 }

abbrev out : LbMembership
out = record { state = LbState.draining; weight = some 100 }

abbrev v1 : StagedArtifact
v1 = record { artifact = record { id = "v1"; checksum = none }; path = "/srv/v1" }

abbrev v2 : StagedArtifact
v2 = record { artifact = record { id = "v2"; checksum = none }; path = "/srv/v2" }

abbrev before : World
before = (pooled, (some v1, some v1))

abbrev shared : Bool → RolloutShared World
shared healthy = record {
  ctx = new "shop" "production";
  artifact = record {
    stage = λ ctx host w. (ok v2, w);
    activate = λ ctx host staged w. (ok tt, (w.0, (some staged, w.1.1)));
  };
  service = record { restart = λ ctx host w. (ok tt, (w.0, (w.1.0, w.1.0))) };
  health = record { check = λ ctx host w. (ok (record { healthy = healthy; detail = none }), w) };
  lb = record {
    drain = λ ctx host w. (ok w.0, (out, w.1));
    reattach = λ ctx host m w. (ok tt, (m, w.1));
  };
  prior_active = ("web-1", v1) ∷ [];
}

abbrev or_out : Result AdapterError LbMembership → LbMembership
or_out (ok m) = m
or_out (err e) = out

shared-IsHost : (healthy : Bool) → IsHost (shared healthy) web1 (λ w. w.0) (λ w. w.1)
shared-IsHost healthy = record {
  drains = λ w w' m eq. sym (ap (λ x. or_out x.0) eq);
  draining = λ w. refl;
  reattaches = λ m v v' drained w w' eq. sym (ap (λ x. x.1.0) eq);
  reattaching = λ m w. refl;
  activates = λ staged w w' eq. sym (ap (λ x. x.1.1) eq);
  restarts = λ w w' eq. sym (ap (λ x. x.1.1) eq);
  checking = λ w. refl;
}

abbrev staged : Map StagedArtifact
staged = ("web-1", v2) ∷ []

advance_host-Advanced_example :
    Advanced
      (shared true)
      web1
      (λ w. w.0)
      (λ w. w.1)
      (shared-IsHost true)
      pooled
      (some v1, some v1)
      (lookup "web-1" staged)
      (advance_host (shared true) web1 staged (no_progress, before))
advance_host-Advanced_example =
    advance_host-Advanced (shared true) web1 (λ w. w.0) (λ w. w.1) (shared-IsHost true) pooled
      (some v1, some v1) staged before refl refl

-- The progress of a host that was found unhealthy on its new release.
abbrev unhealthy : HostProgress
unhealthy = record { drained = some pooled; activated = true; reattached = false }

left_by_advance :
    (advance_host (shared false) web1 staged (no_progress, before)).1
    ≡ (unhealthy, (out, (some v2, some v2)))
unfolding advance_host after_drain activate_staged after_activate after_restart after_check
    judge_host lookup
left_by_advance = refl

progress_recorded :
    lookup "web-1" (("web-1", unhealthy) ∷ [])
    ≡ some (advance_host (shared false) web1 staged (no_progress, before)).1.0
unfolding lookup
progress_recorded = ap (λ x. some x.0) (sym left_by_advance)

prior_ran :
    before.1
    ≡ (lookup "web-1" (shared false).prior_active, lookup "web-1" (shared false).prior_active)
unfolding lookup
prior_ran = refl

restore_host-advance_host_example :
    Returned
      (shared false)
      web1
      (λ w. w.0)
      (λ w. w.1)
      (shared-IsHost false)
      pooled
      (some v1, some v1)
      (advance_host (shared false) web1 staged (no_progress, before)).1.0.activated
      (restore_host
        (shared false)
        web1
        (("web-1", unhealthy) ∷ [])
        (advance_host (shared false) web1 staged (no_progress, before)).1.1)
restore_host-advance_host_example =
    restore_host-advance_host (shared false) web1 (λ w. w.0) (λ w. w.1) (shared-IsHost false) staged
      before prior_ran (("web-1", unhealthy) ∷ []) progress_recorded

restored :
    restore_host (shared false) web1 (("web-1", unhealthy) ∷ []) (out, (some v2, some v2))
    ≡ (ok tt, before)
unfolding restore_host restore_from take_out restore_release activate_prior activated_prior
    restarted_prior finish_restore lookup
restored = refl
