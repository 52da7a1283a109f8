-- ===== src/Retention/Plan.antt =====
-- `plan` of retention.rs. The verification of an archive is the caller's, and may change the world
-- `W`.
pub mod Rounds
pub mod Partition
pub mod Reasons
pub mod Bounds
pub mod Ceiling
use fraisier_core.Common.{
  ℕ, suc, ◌-◌, String, Bool, true, false, not, ◌&&◌, Option, none, some, List, [], ◌∷◌, ◌++◌, ltb,
  leb, if◌then◌else◌,
}
use fraisier_core.Retention.Policy.{
  Policy, Candidate, Verdict, valid, invalid, unverifiable, Plan, no_plan,
}
use fraisier_core.Retention.Sort.{sort_newest}

-- `now.checked_sub(retention)`, for a policy with an age rule.
unfoldable pub checked_sub : ℕ → ℕ → Option ℕ
checked_sub now retention = if leb retention now then some (now - retention) else none

unfoldable pub cutoff_of : Policy → ℕ → Option ℕ
unfolding checked_sub
cutoff_of policy now = elim policy.retention [
  | none ↦ none
  | some retention ↦ checked_sub now retention
]

unfoldable pub is_beyond_ceiling : Option ℕ → ℕ → Bool
is_beyond_ceiling none slots = false
is_beyond_ceiling (some keep_last) slots = leb keep_last slots

unfoldable pub is_within_retention : Option ℕ → Candidate → Bool
is_within_retention none candidate = true
is_within_retention (some cutoff) candidate = leb cutoff candidate.taken_at

-- The end of the loop's body, where the archive is removed.
unfoldable pub discard : Bool → String → Plan → Plan
discard true path plan = record plan {
  removed_by_ceiling = plan.removed_by_ceiling ++ path ∷ [];
  remove = plan.remove ++ path ∷ [];
}
discard false path plan = record plan { remove = plan.remove ++ path ∷ [] }

-- What the verdict on an archive that contests a slot of the floor does.
unfoldable pub contest : Bool → String → Verdict → ℕ → Plan → ℕ × Plan
contest within path valid slots plan =
    (suc slots, record plan { exempt = plan.exempt ++ path ∷ [] })
contest within path (invalid reason) slots plan =
    (slots, discard within path (record plan { invalid = plan.invalid ++ (path, reason) ∷ [] }))
contest within path (unverifiable reason) slots plan = (
  suc slots,
  record plan {
    unverifiable = plan.unverifiable ++ (path, reason) ∷ [];
    exempt = plan.exempt ++ path ∷ [];
  },
)

module _ {W : Type 0} (verify : String → W → Verdict × W) (policy : Policy)
    (cutoff : Option ℕ) where
  -- One round of the loop, at a number of slots spent.
  unfoldable pub place : Candidate → ℕ → Plan → W → ℕ × Plan × W
  place candidate slots plan w =
      let beyond = is_beyond_ceiling policy.keep_last slots in
      let within = is_within_retention cutoff candidate in
      if within && not beyond
      then (suc slots, record plan { keep = plan.keep ++ candidate.path ∷ [] }, w)
      else if not beyond && ltb slots policy.keep_minimum
      then (let (verdict, w') = verify candidate.path w in
          let (slots', plan') = contest within candidate.path verdict slots plan in
          (slots', plan', w'))
      else (slots, discard within candidate.path plan, w)

  unfoldable pub plan_from : List Candidate → ℕ → Plan → W → ℕ × Plan × W
  plan_from [] slots plan w = (slots, plan, w)
  plan_from (candidate ∷ rest) slots plan w =
      let (slots', plan', w') = place candidate slots plan w in plan_from rest slots' plan' w'

module _ {W : Type 0} (verify : String → W → Verdict × W) where
  -- `plan`
  unfoldable pub plan : List Candidate → Policy → ℕ → W → Plan × W
  plan candidates policy now w =
      let (slots, done, w') =
        plan_from verify policy (cutoff_of policy now) (sort_newest candidates) 0 no_plan w in
      (done, w')
