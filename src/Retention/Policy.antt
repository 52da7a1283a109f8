-- ===== src/Retention/Policy.antt =====
-- `Policy`, `Candidate`, `Verdict` and `Plan` of retention.rs. A `SystemTime` is the number of time
-- units since the earliest one that the platform represents, and a `Duration` a number of units.
use fraisier_core.Common.{
  ℕ, String, Bool, true, false, not, ◌&&◌, Option, none, some, List, [], ◌∷◌, Result, ok, err, ltb,
  ◌==◌, if◌then◌else◌,
}

-- `struct Policy`
pub record Policy : Type 0 where
  pub retention : Option ℕ
  pub keep_minimum : ℕ
  pub keep_last : Option ℕ

-- `enum PolicyError`
pub data PolicyError : Type 0 where
  keep_last_zero : PolicyError
  keep_last_below_minimum : (keep_last keep_minimum : ℕ) → PolicyError

-- `Policy::new`
unfoldable pub new : Option ℕ → ℕ → Option ℕ → Result PolicyError Policy
new retention keep_minimum none =
    ok (record { retention = retention; keep_minimum = keep_minimum; keep_last = none })
new retention keep_minimum (some keep_last) =
    if keep_last == 0
    then err keep_last_zero
    else if ltb keep_last keep_minimum
    then err (keep_last_below_minimum keep_last keep_minimum)
    else ok
        (record { retention = retention; keep_minimum = keep_minimum; keep_last = some keep_last })

-- `struct Candidate`
pub record Candidate : Type 0 where
  pub path : String
  pub taken_at : ℕ

-- `enum Verdict`
pub data Verdict : Type 0 where
  valid : Verdict
  invalid : (reason : String) → Verdict
  unverifiable : (reason : String) → Verdict

-- `struct Plan`
pub record Plan : Type 0 where
  pub remove : List String
  pub keep : List String
  pub exempt : List String
  pub invalid : List (String × String)
  pub unverifiable : List (String × String)
  pub removed_by_ceiling : List String

-- `Plan::default`
abbrev pub no_plan : Plan
no_plan = record {
  remove = [];
  keep = [];
  exempt = [];
  invalid = [];
  unverifiable = [];
  removed_by_ceiling = [];
}

is_empty : List String → Bool
is_empty [] = true
is_empty (_ ∷ _) = false

-- `Plan::floor_is_load_bearing`
unfoldable pub floor_is_load_bearing : Plan → Bool
unfolding is_empty
floor_is_load_bearing plan = not (is_empty plan.exempt) && is_empty plan.keep
