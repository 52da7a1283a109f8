-- ===== src/Retention/Plan/Ceiling.antt =====
-- Policies without an age rule.
use mathlib.Core.List.{append_assoc, append-nil, Perm}
use fraisier_core.Common.{
  ℕ, suc, ◌-◌, ◌≡◌, refl, sym, ◌∙◌, subst, String, true, false, none, some, List, [], ◌∷◌, ◌++◌,
  map, arith, leb, inl, inr, Bool-cases, take, drop, take-nil, drop-nil,
}
use fraisier_core.Retention.Policy.{Policy, Candidate, Verdict, Plan, no_plan}
use fraisier_core.Retention.Sort.{
  sort_newest, sort_newest-perm, IsNewestFirst, sort_newest-IsNewestFirst,
}
use fraisier_core.Retention.Plan.{
  cutoff_of, is_beyond_ceiling, is_within_retention, discard, place, plan_from, plan as plan_of,
}

abbrev pub paths : List Candidate → List String
paths = map (λ c. c.path)

leb-sub : (k n : ℕ) → leb k n ≡ true → k - n ≡ 0
leb-sub k n under = ground arith

leb-sub_suc : (k n : ℕ) → leb k n ≡ false → k - n ≡ suc (k - suc n)
leb-sub_suc k n over = ground arith

module _ {W : Type 0} (verify : String → W → Verdict × W) (policy : Policy) where
  module _ (k : ℕ) (ceiling : policy.keep_last ≡ some k) where
    place-under :
        (c : Candidate) (slots : ℕ) (p : Plan) (w : W)
        → leb k slots ≡ false
        → place verify policy none c slots p w
          ≡ (suc slots, record p { keep = p.keep ++ c.path ∷ [] }, w)
    unfolding place is_beyond_ceiling is_within_retention
    place-under c slots p w under = rw (ceiling, under)

    place-over :
        (c : Candidate) (slots : ℕ) (p : Plan) (w : W)
        → leb k slots ≡ true
        → place verify policy none c slots p w ≡ (slots, discard true c.path p, w)
    unfolding place is_beyond_ceiling is_within_retention
    place-over c slots p w over = rw (ceiling, over)

    TakesFrom : (cs : List Candidate) (slots : ℕ) (p : Plan) (w : W) → ℕ × Plan × W → Type 0
    TakesFrom cs slots p w r =
        (r.1 ≡ record p {
          keep = p.keep ++ take (k - slots) (paths cs);
          remove = p.remove ++ drop (k - slots) (paths cs);
          removed_by_ceiling = p.removed_by_ceiling ++ drop (k - slots) (paths cs);
        })
        × (r.2 ≡ w)

    go_over :
        (c : Candidate) (cs : List Candidate) (slots : ℕ) (p : Plan) (w : W) (r : ℕ × Plan × W)
        → leb k slots ≡ true
        → TakesFrom cs slots (discard true c.path p) w r
        → TakesFrom (c ∷ cs) slots p w r
    unfolding TakesFrom discard
    go_over c cs slots p w r over (q, same) = (
      q
          ∙ rw
              (
                leb-sub k slots over,
                append_assoc p.remove (c.path ∷ []) (paths cs),
                append_assoc p.removed_by_ceiling (c.path ∷ []) (paths cs),
              )
              refl,
      same,
    )

    go_under :
        (c : Candidate) (cs : List Candidate) (slots : ℕ) (p : Plan) (w : W) (r : ℕ × Plan × W)
        → leb k slots ≡ false
        → TakesFrom cs (suc slots) (record p { keep = p.keep ++ c.path ∷ [] }) w r
        → TakesFrom (c ∷ cs) slots p w r
    unfolding TakesFrom
    go_under c cs slots p w r under (q, same) = (
      q
          ∙ rw
              (
                leb-sub_suc k slots under,
                append_assoc p.keep (c.path ∷ []) (take (k - suc slots) (paths cs)),
              )
              refl,
      same,
    )

    take_from :
        (cs : List Candidate) (slots : ℕ) (p : Plan) (w : W)
        → TakesFrom cs slots p w (plan_from verify policy none cs slots p w)
    unfolding TakesFrom plan_from discard
    take_from [] slots p w =
        rw
          (
            take-nil {A = String} (k - slots),
            drop-nil {A = String} (k - slots),
            append-nil p.keep,
            append-nil p.remove,
            append-nil p.removed_by_ceiling,
          )
          (refl, refl)
    take_from (c ∷ cs) slots p w = elim (Bool-cases (leb k slots)) [
      | inl over ↦
          let rest = plan_from verify policy none cs slots (discard true c.path p) w in
          subst (λ r. TakesFrom (c ∷ cs) slots p w (plan_from verify policy none cs r.0 r.1 r.2))
            (sym (place-over c slots p w over))
            (go_over c cs slots p w rest over (take_from cs slots (discard true c.path p) w))
      | inr under ↦
          let kept = record p { keep = p.keep ++ c.path ∷ [] } in
          let rest = plan_from verify policy none cs (suc slots) kept w in
          subst (λ r. TakesFrom (c ∷ cs) slots p w (plan_from verify policy none cs r.0 r.1 r.2))
            (sym (place-under c slots p w under))
            (go_under c cs slots p w rest under (take_from cs (suc slots) kept w))
    ]

sub_zero : (k : ℕ) → k - 0 ≡ k
sub_zero k = omega arith

cutoff_of-ageless :
    (policy : Policy) (now : ℕ) → policy.retention ≡ none → cutoff_of policy now ≡ none
unfolding cutoff_of
cutoff_of-ageless policy now ageless = rw ageless

-- With no age rule and a ceiling of `k`, the archives are ranked, that is put in an order in which none
-- is older than one behind it, and the first `k` are kept, the others are removed as beyond the
-- ceiling, in that order, and no archive is verified: the world stays.
pub plan-ceiling :
    {W : Type 0} (verify : String → W → Verdict × W) (candidates : List Candidate) (policy : Policy)
    (now : ℕ) (w : W) (k : ℕ)
    → policy.retention ≡ none
    → policy.keep_last ≡ some k
    → (ranked : List Candidate) × Perm ranked candidates
      × IsNewestFirst ranked
      × (plan_of verify candidates policy now w ≡ (
        record no_plan {
          keep = take k (paths ranked);
          remove = drop k (paths ranked);
          removed_by_ceiling = drop k (paths ranked);
        },
        w,
      ))
unfolding plan_of TakesFrom
plan-ceiling verify candidates policy now w k ageless ceiling =
    let (q, same) = take_from verify policy k ceiling (sort_newest candidates) 0 no_plan w in
    (
      sort_newest candidates,
      sort_newest-perm candidates,
      sort_newest-IsNewestFirst candidates,
      rw (cutoff_of-ageless policy now ageless, q, same, sub_zero k) refl,
    )
