-- ===== src/Retention/Plan/Partition.antt =====
-- `remove`, `keep` and `exempt` partition the candidates.
use mathlib.Core.List.Perm
use mathlib.Core.List.{Perm, perm_middle, append_assoc, append-nil}
use fraisier_core.Common.{ℕ, subst, String, Bool, true, false, Option, List, [], ◌∷◌, ◌++◌, map}
use fraisier_core.Retention.Policy.{Policy, Candidate, Verdict, Plan, no_plan}
use fraisier_core.Retention.Sort.{sort_newest, sort_newest-perm}
use fraisier_core.Retention.Plan.{
  cutoff_of, is_within_retention, discard, place, plan_from, plan as plan_of,
}
use fraisier_core.Retention.Plan.Rounds.{
  Placed, keeps, spares, trusts, rejects, ages, caps, place-Placed,
}

-- The archives that the plan has decided on.
abbrev pub decided : Plan → List String
decided p = p.remove ++ (p.keep ++ p.exempt)

module _ (x : String) (r k e : List String) where
  remove-perm : Perm ((r ++ x ∷ []) ++ (k ++ e)) (x ∷ r ++ (k ++ e))
  remove-perm = rw append_assoc (perm_middle r (k ++ e))

  keep-perm : Perm (r ++ ((k ++ x ∷ []) ++ e)) (x ∷ r ++ (k ++ e))
  keep-perm =
      rw append_assoc (Perm.trans (Perm.append_left r (perm_middle k e)) (perm_middle r (k ++ e)))

  exempt-perm : Perm (r ++ (k ++ (e ++ x ∷ []))) (x ∷ r ++ (k ++ e))
  exempt-perm =
      let last : Perm (e ++ x ∷ []) (x ∷ e) =
        subst (λ l. Perm (e ++ x ∷ []) (x ∷ l)) (append-nil e) (perm_middle e []) in
      Perm.trans (Perm.append_left r (Perm.append_left k last))
        (Perm.trans (Perm.append_left r (perm_middle k e)) (perm_middle r (k ++ e)))

discard-perm :
    (within : Bool) (path : String) (p : Plan)
    → Perm (decided (discard within path p)) (path ∷ decided p)
unfolding discard
discard-perm true path p = remove-perm path p.remove p.keep p.exempt
discard-perm false path p = remove-perm path p.remove p.keep p.exempt

module _ {W : Type 0} (verify : String → W → Verdict × W) (policy : Policy)
    (cutoff : Option ℕ) where
  Placed-perm :
      (c : Candidate) (slots : ℕ) (p : Plan) (w : W) {r : ℕ × Plan × W}
      → Placed verify policy cutoff c slots p w r
      → Perm (decided r.1) (c.path ∷ decided p)
  Placed-perm c slots p w (keeps t b) = keep-perm c.path p.remove p.keep p.exempt
  Placed-perm c slots p w (spares f b room v) = exempt-perm c.path p.remove p.keep p.exempt
  Placed-perm c slots p w (trusts reason f b room v) = exempt-perm c.path p.remove p.keep p.exempt
  Placed-perm c slots p w (rejects reason f b room v) = remove-perm c.path p.remove p.keep p.exempt
  Placed-perm c slots p w (ages f b full) = remove-perm c.path p.remove p.keep p.exempt
  Placed-perm c slots p w (caps b) = discard-perm (is_within_retention cutoff c) c.path p

  plan_from-perm :
      (cs : List Candidate) (slots : ℕ) (p : Plan) (w : W)
      → Perm
          (decided (plan_from verify policy cutoff cs slots p w).1)
          (map (λ c. c.path) cs ++ decided p)
  unfolding plan_from
  plan_from-perm [] slots p w = Perm.refl (decided p)
  plan_from-perm (c ∷ cs) slots p w =
      let (slots', p', w') = place verify policy cutoff c slots p w in
      Perm.trans (plan_from-perm cs slots' p' w') (
        Perm.trans
          (Perm.append_left (map (λ c. c.path) cs)
            (Placed-perm c slots p w (place-Placed verify policy cutoff c slots p w)))
          (perm_middle (map (λ c. c.path) cs) (decided p)))

-- `remove`, `keep` and `exempt` together hold every candidate's path, each as often as it was given
-- and no other, whatever the verification answers.
pub plan-perm :
    {W : Type 0} (verify : String → W → Verdict × W) (candidates : List Candidate) (policy : Policy)
    (now : ℕ) (w : W)
    → let done = (plan_of verify candidates policy now w).0 in
      Perm (done.remove ++ (done.keep ++ done.exempt)) (map (λ c. c.path) candidates)
unfolding plan_of
plan-perm verify candidates policy now w =
    Perm.trans
      (subst (Perm _) (append-nil (map (λ (c : Candidate). c.path) (sort_newest candidates)))
        (plan_from-perm verify policy (cutoff_of policy now) (sort_newest candidates) 0 no_plan w))
      (Perm.map (λ c. c.path) (sort_newest-perm candidates))
