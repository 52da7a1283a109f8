-- ===== src/Retention/Plan/Rounds.antt =====
-- The six ways that one round of `plan` can go.
use fraisier_core.Common.{
  ℕ, suc, ◌≤◌, ◌<◌, ◌≡◌, String, Bool, true, false, Option, [], ◌∷◌, ◌++◌, arith, ltb, refl, ◌⊎◌,
  inl, inr, Bool-cases,
}
use fraisier_core.Retention.Policy.{Policy, Candidate, Verdict, valid, invalid, unverifiable, Plan}
use fraisier_core.Retention.Plan.{is_beyond_ceiling, is_within_retention, discard, contest, place}

-- The plan with the archive removed.
abbrev pub with_removed : String → Plan → Plan
with_removed path plan = record plan { remove = plan.remove ++ path ∷ [] }

module _ {W : Type 0} (verify : String → W → Verdict × W) (policy : Policy) (cutoff : Option ℕ)
    (candidate : Candidate) (slots : ℕ) (plan : Plan) (w : W) where
  abbrev path : String
  path = candidate.path

  abbrev verdict : Verdict
  verdict = (verify path w).0

  abbrev within : Bool
  within = is_within_retention cutoff candidate

  abbrev beyond : Bool
  beyond = is_beyond_ceiling policy.keep_last slots

  pub data Placed : ℕ × Plan × W → Type 0 where
    keeps :
        within ≡ true
        → beyond ≡ false
        → Placed (suc slots, record plan { keep = plan.keep ++ path ∷ [] }, w)
    spares :
        within ≡ false
        → beyond ≡ false
        → slots < policy.keep_minimum
        → verdict ≡ valid
        → Placed (suc slots, record plan { exempt = plan.exempt ++ path ∷ [] }, (verify path w).1)
    trusts :
        (reason : String)
        → within ≡ false
        → beyond ≡ false
        → slots < policy.keep_minimum
        → verdict ≡ unverifiable reason
        → Placed (
          suc slots,
          record plan {
            unverifiable = plan.unverifiable ++ (path, reason) ∷ [];
            exempt = plan.exempt ++ path ∷ [];
          },
          (verify path w).1,
        )
    rejects :
        (reason : String)
        → within ≡ false
        → beyond ≡ false
        → slots < policy.keep_minimum
        → verdict ≡ invalid reason
        → Placed (
          slots,
          with_removed path (record plan { invalid = plan.invalid ++ (path, reason) ∷ [] }),
          (verify path w).1,
        )
    ages :
        within ≡ false
        → beyond ≡ false
        → policy.keep_minimum ≤ slots
        → Placed (slots, with_removed path plan, w)
    caps : beyond ≡ true → Placed (slots, discard within path plan, w)

  Verdict-cases :
      (v : Verdict)
      → (v ≡ valid)
        ⊎ ((reason : String) × (v ≡ invalid reason))
        ⊎ ((reason : String) × (v ≡ unverifiable reason))
  Verdict-cases valid = inl refl
  Verdict-cases (invalid reason) = inr (inl (reason, refl))
  Verdict-cases (unverifiable reason) = inr (inr (reason, refl))

  pub place-Placed : Placed (place verify policy cutoff candidate slots plan w)
  unfolding place contest discard
  place-Placed = elim (Bool-cases beyond) [
    | inl b ↦ elim (Bool-cases within) [
      | inl t ↦ rw (b, t) (rw t at (caps b))
      | inr f ↦ rw (b, f) (rw f at (caps b))
    ]
    | inr b ↦ elim (Bool-cases within) [
      | inl t ↦ rw (b, t) (keeps t b)
      | inr f ↦ elim (Bool-cases (ltb slots policy.keep_minimum)) [
        | inr full ↦ rw (b, f, full) (ages f b (ground arith))
        | inl room ↦ elim (Verdict-cases verdict) [
          | inl v ↦ rw (b, f, room, v) (spares f b (ground arith) v)
          | inr (inl (reason, v)) ↦ rw (b, f, room, v) (rejects reason f b (ground arith) v)
          | inr (inr (reason, v)) ↦ rw (b, f, room, v) (trusts reason f b (ground arith) v)
        ]
      ]
    ]
  ]
