-- ===== src/Retention/Samples.antt =====
-- A small directory of archives under two policies, and a file name under a pattern: tests, and the
-- theorems of the plan and of the pattern at them.
use mathlib.Core.List.{Memᴰ, Perm}
use fraisier_core.Common.{
  ℕ, ◌+◌, ◌≤◌, ◌≡◌, refl, ◌↔◌, String, true, false, none, some, List, [], ◌∷◌, ◌++◌, ok, str_eq,
  if◌then◌else◌, length, take, drop,
}
use fraisier_core.Retention.Policy.{Policy, new, Candidate, Verdict, no_plan, floor_is_load_bearing}
use fraisier_core.Retention.Sort.{insert_newest, sort_newest}
use fraisier_core.Retention.Glob.{Bytes, matches, loop, retry, all_stars}
use fraisier_core.Retention.Glob.Language.{Matches}
use fraisier_core.Retention.Glob.Complete.{matches-Matches}
use fraisier_core.Retention.Plan.{
  checked_sub, cutoff_of, is_beyond_ceiling, is_within_retention, discard, contest, place,
  plan_from, plan as plan_of,
}
use fraisier_core.Retention.Plan.Partition.{plan-perm}
use fraisier_core.Retention.Plan.Bounds.{survivors, plan-survivors-le}
use fraisier_core.Retention.Plan.Reasons.{IsJustified, plan-IsJustified, plan-floor}
use mathlib.Core.List.{Perm}
use fraisier_core.Retention.Sort.{IsNewestFirst}
use fraisier_core.Retention.Plan.Ceiling.{paths, plan-ceiling}

abbrev candidate_at : String → ℕ → Candidate
candidate_at path taken_at = record { path = path; taken_at = taken_at }

-- `c` is the newest archive and `a` the oldest.
abbrev archives : List Candidate
archives =
    candidate_at "b" 20 ∷ candidate_at "c" 90 ∷ candidate_at "a" 10 ∷ candidate_at "d" 30 ∷ []

-- `d` is damaged.
abbrev verdict : String → Verdict
verdict path = if str_eq path "d" then Verdict.invalid "bad header" else Verdict.valid

-- Counts the archives that it verified.
abbrev verify : String → ℕ → Verdict × ℕ
verify path w = (verdict path, w + 1)

-- Ten units, a floor of two, and a ceiling of three.
abbrev aged : Policy
aged = record { retention = some 10; keep_minimum = 2; keep_last = some 3 }

abbrev ceiling_only : Policy
ceiling_only = record { retention = none; keep_minimum = 0; keep_last = some 3 }

program : Unit {0}
unfolding plan_of plan_from place contest discard is_within_retention is_beyond_ceiling cutoff_of
    checked_sub sort_newest insert_newest new floor_is_load_bearing
program = tt

aged_plan : plan_of verify archives aged 95 0 ≡ (
  record no_plan {
    keep = "c" ∷ [];
    exempt = "b" ∷ [];
    remove = "d" ∷ "a" ∷ [];
    invalid = ("d", "bad header") ∷ [];
  },
  2,
)
unfolding program
aged_plan = refl

plan-perm_example :
    let done = (plan_of verify archives aged 95 0).0 in
    Perm (done.remove ++ (done.keep ++ done.exempt)) ("b" ∷ "c" ∷ "a" ∷ "d" ∷ [])
plan-perm_example = plan-perm verify archives aged 95 0

plan-survivors-le_example :
    let done = (plan_of verify archives aged 95 0).0 in
    ((k : ℕ) → aged.keep_last ≡ some k → survivors done ≤ k) × (length done.exempt ≤ 2)
plan-survivors-le_example = plan-survivors-le verify archives aged 95 0

plan-IsJustified_example :
    let done = (plan_of verify archives aged 95 0).0 in
    IsJustified archives verdict aged (cutoff_of aged 95) (survivors done) done
plan-IsJustified_example = plan-IsJustified verify verdict (λ path w. refl) archives aged 95 0

aged-new : new (some 10) 2 (some 3) ≡ ok aged
unfolding program
aged-new = refl

oldest_removed : Memᴰ "a" (plan_of verify archives aged 95 0).0.remove
unfolding program
oldest_removed = Memᴰ.tail (Memᴰ.head refl)

plan-floor_example : 2 ≤ survivors (plan_of verify archives aged 95 0).0
plan-floor_example =
    plan-floor verify verdict (λ path w. refl) archives (some 10) 2 (some 3) 95 0 "a" aged-new
      oldest_removed (λ bad. bad)

plan-ceiling_example :
    (ranked : List Candidate) × Perm ranked archives
    × IsNewestFirst ranked
    × (plan_of verify archives ceiling_only 95 0 ≡ (
      record no_plan {
        keep = take 3 (paths ranked);
        remove = drop 3 (paths ranked);
        removed_by_ceiling = drop 3 (paths ranked);
      },
      0,
    ))
plan-ceiling_example = plan-ceiling verify archives ceiling_only 95 0 3 refl refl

-- `*.d?` and `a.d.dx`.
abbrev any_dump : Bytes
any_dump = b'*' ∷ b'.' ∷ b'd' ∷ b'?' ∷ []

abbrev dump : Bytes
dump = b'a' ∷ b'.' ∷ b'd' ∷ b'.' ∷ b'd' ∷ b'x' ∷ []

dump_is_found : (matches any_dump dump ≡ true) × (matches any_dump (b'.' ∷ b'd' ∷ []) ≡ false)
unfolding matches loop retry all_stars
dump_is_found = (refl, refl)

matches-Matches_example : (matches any_dump dump ≡ true) ↔ Matches any_dump dump
matches-Matches_example = matches-Matches any_dump dump
