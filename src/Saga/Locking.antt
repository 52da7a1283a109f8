-- ===== src/Saga/Locking.antt =====
-- The lock of a run, over any store that keeps the locking half of its contract. Every write may
-- fail.
use fraisier_core.Common.{◌≡◌, refl, ◌⊎◌, inl, inr, Bool, true, false, [], Result, ok, err, Done}
use fraisier_core.Saga.Types.{SagaState, SagaError, show_key, StateStoreError}
use fraisier_core.Saga.Store.{StateStore, Locks}
use fraisier_core.Saga.Driver.{Saga, Std, execute, run_inner, run_with_state}
use fraisier_core.Saga.Keeps.{IsStoreFailure, IsStoreFailure-after_release, Keeps-execute_from}

module _ {S Json E : Type 0} (store : StateStore S Json) (std : Std S) (saga : Saga E)
    {holds : S → Bool} (locks : Locks store saga.key holds) where
  pub run_with_state-locked :
      (s : S) (e : E)
      → holds s ≡ true
      → run_with_state store std saga s e
        ≡ (err (SagaError.store (StateStoreError.locked (show_key saga.key))), s, e)
  unfolding run_with_state run_inner
  run_with_state-locked s e h = rw (locks.acquire_held s h)

  -- The lock is free, or its release failed, and this is what the failed release left.
  abbrev pub IsReleased : S → Type 0
  IsReleased s' =
      (holds s' ≡ false)
      ⊎ ((s : S) × (x : StateStoreError) × (store.release_lock (record { key = saga.key }) s
            ≡ (err x, s')))

  release_lock-IsReleased :
      (s : S) (r : Result StateStoreError Done × S)
      → store.release_lock (record { key = saga.key }) s ≡ r
      → IsReleased r.1
  release_lock-IsReleased s (ok _, s') q = inl (locks.holds-release_lock s s' q)
  release_lock-IsReleased s (err x, s') q = inr (s, x, q)

  -- Over a store that lets a free lock be acquired and frees it by a release that succeeds, a run that
  -- finds its lock free leaves it free unless the store fails to release it, and if it returns an error
  -- then the error is the store's: whichever of the other writes fail, and whatever the steps do.
  pub run_with_state-releases :
      (s : S) (e : E)
      → holds s ≡ false
      → IsReleased (run_with_state store std saga s e).1
        × IsStoreFailure (run_with_state store std saga s e).0
  unfolding run_with_state run_inner execute
  run_with_state-releases s e h =
      let s₁ = (store.acquire_lock saga.key s).1 in
      let kept =
        Keeps-execute_from store std saga.key locks.holds-record_event locks.holds-record_state
          SagaState.idle [] saga.steps in
      rw (locks.acquire_free s h)
        (release_lock-IsReleased _ _ refl, IsStoreFailure-after_release _ _ (kept.cause s₁ e))
