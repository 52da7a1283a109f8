-- ===== src/Retention/Plan/Reasons.antt =====
-- Why each archive is kept or removed, for a verification that answers each path by a fixed verdict.
use mathlib.Core.List.Perm
use mathlib.Core.List.{Mem, Memᴰ}
use fraisier_core.Common.{
  ℕ, ◌≤◌, ◌<◌, ◌≡◌, refl, sym, ◌∙◌, String, true, false, Option, none, some, List, [], ◌∷◌, arith,
  ◌⊎◌, inl, inr, Bool-cases, Option-cases, All, All-append_one, All-map, ok,
}
use fraisier_core.Retention.Policy.{Policy, new, Candidate, Verdict, invalid, Plan, no_plan}
use fraisier_core.Retention.Sort.{sort_newest, sort_newest-perm}
use fraisier_core.Retention.Plan.{
  cutoff_of, is_beyond_ceiling, is_within_retention, discard, place, plan_from, plan as plan_of,
}
use fraisier_core.Retention.Plan.Rounds.{
  Placed, keeps, spares, trusts, rejects, ages, caps, place-Placed,
}
use fraisier_core.Retention.Plan.Bounds.{survivors, plan_from-Counted, no_plan-Counted}

abbrev pub IsInvalid : Verdict → Type 0
IsInvalid (invalid reason) = Unit
IsInvalid _ = ⊥

module _ (verdict : String → Verdict) (policy : Policy) (cutoff : Option ℕ) where
  -- Within the age rule.
  abbrev pub IsYoung : Candidate → Type 0
  IsYoung c = is_within_retention cutoff c ≡ true

  -- Past the age rule, and the verification does not reject it.
  abbrev pub IsSpared : Candidate → Type 0
  IsSpared c = (is_within_retention cutoff c ≡ false) × (¬ IsInvalid (verdict c.path))

  -- A reason to remove it when `slots` archives survive: past the age rule and rejected; past the
  -- age rule with the floor full; or over the ceiling.
  abbrev pub IsRemovable : ℕ → Candidate → Type 0
  IsRemovable slots c =
      ((is_within_retention cutoff c ≡ false) × IsInvalid (verdict c.path))
      ⊎ ((is_within_retention cutoff c ≡ false) × (policy.keep_minimum ≤ slots))
      ⊎ ((k : ℕ) × (policy.keep_last ≡ some k) × (k ≤ slots))

module _ (candidates : List Candidate) where
  -- The path is that of a candidate with the property.
  abbrev pub Comes : (Candidate → Type 0) → String → Type 0
  Comes P path = (c : Candidate) × Mem c candidates × (c.path ≡ path) × P c

  module _ (verdict : String → Verdict) (policy : Policy) (cutoff : Option ℕ) where
    pub record IsJustified (slots : ℕ) (p : Plan) : Type 0 where
      pub kept : All (Comes (IsYoung verdict policy cutoff)) p.keep
      pub spared : All (Comes (IsSpared verdict policy cutoff)) p.exempt
      pub removed : All (Comes (IsRemovable verdict policy cutoff slots)) p.remove

    IsRemovable-mono :
        {slots slots' : ℕ}
        → slots ≤ slots'
        → (path : String) → Comes (IsRemovable verdict policy cutoff slots) path
        → Comes (IsRemovable verdict policy cutoff slots') path
    IsRemovable-mono le path (c, m, e, inl bad) = (c, m, e, inl bad)
    IsRemovable-mono le path (c, m, e, inr (inl (old, full))) =
        (c, m, e, inr (inl (old, omega arith)))
    IsRemovable-mono le path (c, m, e, inr (inr (k, cap, over))) =
        (c, m, e, inr (inr (k, cap, omega arith)))

    beyond_ceiling :
        (slots : ℕ)
        → is_beyond_ceiling policy.keep_last slots ≡ true
        → (k : ℕ) × (policy.keep_last ≡ some k) × (k ≤ slots)
    unfolding is_beyond_ceiling
    beyond_ceiling slots b = elim (Option-cases policy.keep_last) [
      | inl e ↦ absurd (ground arith)
      | inr (k, e) ↦ (k, e, ground arith)
    ]

    module _ {W : Type 0} (verify : String → W → Verdict × W)
        (answers : (path : String) (w : W) → (verify path w).0 ≡ verdict path) where
      not-IsInvalid :
          (path : String) (w : W) {v : Verdict}
          → (verify path w).0 ≡ v
          → ¬ IsInvalid v
          → ¬ IsInvalid (verdict path)
      not-IsInvalid path w e h = rw (← e, answers path w) at h

      Placed-IsJustified :
          (c : Candidate) (slots : ℕ) (p : Plan) (w : W) {r : ℕ × Plan × W}
          → Mem c candidates
          → IsJustified slots p
          → Placed verify policy cutoff c slots p w r
          → IsJustified r.0 r.1
      unfolding discard
      Placed-IsJustified c slots p w m h (keeps t b) = record {
        kept = All-append_one _ p.keep c.path h.kept (c, m, refl, t);
        spared = h.spared;
        removed = All-map _ _ (IsRemovable-mono (omega arith)) p.remove h.removed;
      }
      Placed-IsJustified c slots p w m h (spares f b room v) = record {
        kept = h.kept;
        spared =
            All-append_one _ p.exempt c.path h.spared
              (c, m, refl, (f, not-IsInvalid c.path w v (λ x. x)));
        removed = All-map _ _ (IsRemovable-mono (omega arith)) p.remove h.removed;
      }
      Placed-IsJustified c slots p w m h (trusts reason f b room v) = record {
        kept = h.kept;
        spared =
            All-append_one _ p.exempt c.path h.spared
              (c, m, refl, (f, not-IsInvalid c.path w v (λ x. x)));
        removed = All-map _ _ (IsRemovable-mono (omega arith)) p.remove h.removed;
      }
      Placed-IsJustified c slots p w m h (rejects reason f b room v) = record {
        kept = h.kept;
        spared = h.spared;
        removed =
            All-append_one _ p.remove c.path h.removed
              (c, m, refl, inl (f, rw (sym (answers c.path w) ∙ v) tt));
      }
      Placed-IsJustified c slots p w m h (ages f b full) = record {
        kept = h.kept;
        spared = h.spared;
        removed = All-append_one _ p.remove c.path h.removed (c, m, refl, inr (inl (f, full)));
      }
      Placed-IsJustified c slots p w m h (caps b) =
          let gone =
            All-append_one _ p.remove c.path h.removed
              (c, m, refl, inr (inr (beyond_ceiling slots b))) in
          elim (Bool-cases (is_within_retention cutoff c)) [
            | inl t ↦ rw t (record { kept = h.kept; spared = h.spared; removed = gone })
            | inr f ↦ rw f (record { kept = h.kept; spared = h.spared; removed = gone })
          ]

      plan_from-IsJustified :
          (cs : List Candidate) (slots : ℕ) (p : Plan) (w : W)
          → ((c : Candidate) → Memᴰ c cs → Mem c candidates)
          → IsJustified slots p
          → IsJustified
              (plan_from verify policy cutoff cs slots p w).0
              (plan_from verify policy cutoff cs slots p w).1
      unfolding plan_from
      plan_from-IsJustified [] slots p w inside h = h
      plan_from-IsJustified (c ∷ cs) slots p w inside h =
          let (slots', p', w') = place verify policy cutoff c slots p w in
          plan_from-IsJustified cs slots' p' w' (λ d m. inside d (Memᴰ.tail m))
            (Placed-IsJustified c slots p w (inside c (Memᴰ.head refl)) h
              (place-Placed verify policy cutoff c slots p w))

module _ {W : Type 0} (verify : String → W → Verdict × W) (verdict : String → Verdict)
    (answers : (path : String) (w : W) → (verify path w).0 ≡ verdict path)
    (candidates : List Candidate) (policy : Policy) (now : ℕ) (w : W) where
  abbrev pub done : Plan
  done = (plan_of verify candidates policy now w).0

  -- If the verification answers each path by a fixed verdict, then every archive in `keep` is a
  -- candidate within the age rule; every one in `exempt` is a candidate past it that the
  -- verification does not reject; and every one in `remove` is a candidate that is past the age
  -- rule and rejected, or past it with at least `keep_minimum` survivors, or over a ceiling that the
  -- survivors reach.
  pub plan-IsJustified :
      IsJustified candidates verdict policy (cutoff_of policy now) (survivors done) done
  unfolding plan_of
  plan-IsJustified =
      let cutoff = cutoff_of policy now in
      let sorted = sort_newest candidates in
      let counted =
        plan_from-Counted policy verify cutoff sorted 0 no_plan w (no_plan-Counted policy) in
      rw (← counted.spent) (
        plan_from-IsJustified candidates verdict policy cutoff verify answers sorted 0 no_plan w
          (λ c m. Perm.subset (sort_newest-perm candidates) c ∣ m ∣₁)
          (record { kept = tt; spared = tt; removed = tt }))

-- What `Policy::new` makes sure of.
new_ok :
    (retention : Option ℕ) (keep_minimum : ℕ) (keep_last : Option ℕ) {policy : Policy}
    → new retention keep_minimum keep_last ≡ ok policy
    → (policy.keep_minimum ≡ keep_minimum)
      × ((k : ℕ) → policy.keep_last ≡ some k → (keep_minimum ≤ k) × (0 < k))
unfolding new
new_ok retention keep_minimum none h = (ground arith, λ k e. ground arith)
new_ok retention keep_minimum (some keep_last) h = (ground arith, λ k e. ground arith)

All-at : {A : Type 0} (P : A → Type 0) (x : A) (xs : List A) → All P xs → Memᴰ x xs → P x
All-at P x [] h m = elim m [ ]
All-at P x (y ∷ xs) h (Memᴰ.head e) = rw e h.0
All-at P x (y ∷ xs) h (Memᴰ.tail m) = All-at P x xs h.1 m

-- Under a policy that `Policy::new` accepts, an archive that the verification does not reject is
-- removed only if at least `keep_minimum` archives survive. The verification answers each path by a
-- fixed verdict.
pub plan-floor :
    {W : Type 0} (verify : String → W → Verdict × W) (verdict : String → Verdict)
    (answers : (path : String) (w : W) → (verify path w).0 ≡ verdict path)
    (candidates : List Candidate) (retention : Option ℕ) (keep_minimum : ℕ) (keep_last : Option ℕ)
    {policy : Policy} (now : ℕ) (w : W) (path : String)
    → new retention keep_minimum keep_last ≡ ok policy
    → Memᴰ path (plan_of verify candidates policy now w).0.remove
    → ¬ IsInvalid (verdict path)
    → keep_minimum ≤ survivors (plan_of verify candidates policy now w).0
plan-floor verify verdict answers candidates retention keep_minimum keep_last {policy} now w path
      made removed readable =
    let (same, ceiling) = new_ok retention keep_minimum keep_last made in
    let justified = plan-IsJustified verify verdict answers candidates policy now w in
    let (c, m, e, why) = All-at _ path _ justified.removed removed in
    elim why [
      | inl (old, bad) ↦ absurd (readable (rw e at bad))
      | inr (inl (old, full)) ↦ omega (arith, same, full)
      | inr (inr (k, cap, over)) ↦ omega (arith, (ceiling k cap).0, over)
    ]
