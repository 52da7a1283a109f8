-- ===== src/Retention/Plan/Bounds.antt =====
-- How many archives survive.
use fraisier_core.Common.{
  ℕ, suc, ◌+◌, ◌≤◌, ◌≡◌, refl, String, false, Option, some, List, [], ◌∷◌, arith, length,
  length-append, inl, inr, Bool-cases,
}
use fraisier_core.Retention.Policy.{Policy, Candidate, Verdict, Plan, no_plan}
use fraisier_core.Retention.Sort.{sort_newest}
use fraisier_core.Retention.Plan.{
  cutoff_of, is_beyond_ceiling, is_within_retention, discard, place, plan_from, plan as plan_of,
}
use fraisier_core.Retention.Plan.Rounds.{
  Placed, keeps, spares, trusts, rejects, ages, caps, place-Placed,
}

-- The number of archives that the plan leaves in place.
abbrev pub survivors : Plan → ℕ
survivors p = length p.keep + length p.exempt

module _ (policy : Policy) where
  pub record Counted (slots : ℕ) (p : Plan) : Type 0 where
    pub spent : slots ≡ survivors p
    pub floored : length p.exempt ≤ policy.keep_minimum
    pub capped : (k : ℕ) → policy.keep_last ≡ some k → slots ≤ k

  module _ {W : Type 0} (verify : String → W → Verdict × W) (cutoff : Option ℕ) where
    room_below :
        (slots k : ℕ)
        → is_beyond_ceiling policy.keep_last slots ≡ false
        → policy.keep_last ≡ some k
        → suc slots ≤ k
    unfolding is_beyond_ceiling
    room_below slots k b e = ground arith

    Placed-Counted :
        (c : Candidate) (slots : ℕ) (p : Plan) (w : W) {r : ℕ × Plan × W}
        → Counted slots p
        → Placed verify policy cutoff c slots p w r
        → Counted r.0 r.1
    unfolding discard
    Placed-Counted c slots p w h (keeps t b) = record {
      spent = omega (arith, h.spent, length-append p.keep (c.path ∷ []));
      floored = h.floored;
      capped = λ k e. room_below slots k b e;
    }
    Placed-Counted c slots p w h (spares f b room v) = record {
      spent = omega (arith, h.spent, length-append p.exempt (c.path ∷ []));
      floored = omega (arith, h.spent, room, length-append p.exempt (c.path ∷ []));
      capped = λ k e. room_below slots k b e;
    }
    Placed-Counted c slots p w h (trusts reason f b room v) = record {
      spent = omega (arith, h.spent, length-append p.exempt (c.path ∷ []));
      floored = omega (arith, h.spent, room, length-append p.exempt (c.path ∷ []));
      capped = λ k e. room_below slots k b e;
    }
    Placed-Counted c slots p w h (rejects reason f b room v) = record {
      spent = h.spent;
      floored = h.floored;
      capped = h.capped;
    }
    Placed-Counted c slots p w h (ages f b full) = record {
      spent = h.spent;
      floored = h.floored;
      capped = h.capped;
    }
    Placed-Counted c slots p w h (caps b) = elim (Bool-cases (is_within_retention cutoff c)) [
      | inl t ↦ rw t (record { spent = h.spent; floored = h.floored; capped = h.capped })
      | inr f ↦ rw f (record { spent = h.spent; floored = h.floored; capped = h.capped })
    ]

    pub plan_from-Counted :
        (cs : List Candidate) (slots : ℕ) (p : Plan) (w : W)
        → Counted slots p
        → Counted
            (plan_from verify policy cutoff cs slots p w).0
            (plan_from verify policy cutoff cs slots p w).1
    unfolding plan_from
    plan_from-Counted [] slots p w h = h
    plan_from-Counted (c ∷ cs) slots p w h =
        let (slots', p', w') = place verify policy cutoff c slots p w in
        plan_from-Counted cs slots' p' w'
          (Placed-Counted c slots p w h (place-Placed verify policy cutoff c slots p w))

  pub no_plan-Counted : Counted 0 no_plan
  no_plan-Counted = record { spent = refl; floored = omega arith; capped = λ k e. omega arith }

-- At most `keep_last` archives survive where there is a ceiling, and the floor alone keeps at most
-- `keep_minimum` archives, whatever the verification answers.
pub plan-survivors-le :
    {W : Type 0} (verify : String → W → Verdict × W) (candidates : List Candidate) (policy : Policy)
    (now : ℕ) (w : W)
    → let done = (plan_of verify candidates policy now w).0 in
      ((k : ℕ) → policy.keep_last ≡ some k → survivors done ≤ k)
      × (length done.exempt ≤ policy.keep_minimum)
unfolding plan_of
plan-survivors-le verify candidates policy now w =
    let counted =
      plan_from-Counted policy verify (cutoff_of policy now) (sort_newest candidates) 0 no_plan w
        (no_plan-Counted policy) in
    (λ k e. omega (arith, counted.spent, counted.capped k e), counted.floored)
