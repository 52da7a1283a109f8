-- ===== src/Gate/Worst.antt =====
-- The worst of a list of actions: `worst` and the filter of `evaluate`, policy.rs.
use mathlib.Core.List.{Memᴰ}
use fraisier_core.Common.{
  ℕ, ◌≤◌, ◌≡◌, refl, sym, ◌∙◌, ap, ◌⊎◌, inl, inr, Bool, true, false, not, List, [], ◌∷◌, map, arith,
  leb, Bool-cases, All, filter,
}
use fraisier_core.Gate.Report.{SchemaChange}
use fraisier_core.Gate.Rules.{PolicyAction, Policy, restrictiveness, is_action, action_for, worst}
use fraisier_core.Gate.Decision.{PolicyReason, for_change, Triggers}
use fraisier_core.Gate.Evaluate.{triggers_of}

pub restrictiveness-injective : (a b : PolicyAction) → restrictiveness a ≡ restrictiveness b → a ≡ b
restrictiveness-injective PolicyAction.auto_apply PolicyAction.auto_apply e = refl
restrictiveness-injective PolicyAction.require_approval PolicyAction.require_approval e = refl
restrictiveness-injective PolicyAction.deny PolicyAction.deny e = refl
restrictiveness-injective PolicyAction.auto_apply PolicyAction.require_approval e =
    absurd (omega (arith, e))
restrictiveness-injective PolicyAction.auto_apply PolicyAction.deny e = absurd (omega (arith, e))
restrictiveness-injective PolicyAction.require_approval PolicyAction.auto_apply e =
    absurd (omega (arith, e))
restrictiveness-injective PolicyAction.require_approval PolicyAction.deny e =
    absurd (omega (arith, e))
restrictiveness-injective PolicyAction.deny PolicyAction.auto_apply e = absurd (omega (arith, e))
restrictiveness-injective PolicyAction.deny PolicyAction.require_approval e =
    absurd (omega (arith, e))

-- The worst is no lower than either part.
worst-head :
    (a : PolicyAction) (rest : List PolicyAction)
    → restrictiveness a ≤ restrictiveness (worst (a ∷ rest))
unfolding worst
worst-head a rest = elim (Bool-cases (leb (restrictiveness a) (restrictiveness (worst rest)))) [
  | inl le ↦ rw le (ground arith)
  | inr gt ↦ rw gt (ground arith)
]

worst-tail :
    (a : PolicyAction) (rest : List PolicyAction)
    → restrictiveness (worst rest) ≤ restrictiveness (worst (a ∷ rest))
unfolding worst
worst-tail a rest = elim (Bool-cases (leb (restrictiveness a) (restrictiveness (worst rest)))) [
  | inl le ↦ rw le (ground arith)
  | inr gt ↦ rw gt (ground arith)
]

worst-least :
    (a : PolicyAction) (rest : List PolicyAction) (k : ℕ)
    → restrictiveness a ≤ k
    → restrictiveness (worst rest) ≤ k
    → restrictiveness (worst (a ∷ rest)) ≤ k
unfolding worst
worst-least a rest k h hs =
    elim (Bool-cases (leb (restrictiveness a) (restrictiveness (worst rest)))) [
      | inl le ↦ rw le hs
      | inr gt ↦ rw gt h
    ]

module _ {A : Type 0} (f : A → PolicyAction) (k : ℕ) where
  pub worst-All :
      (xs : List A)
      → restrictiveness (worst (map f xs)) ≤ k
      → All (λ x. restrictiveness (f x) ≤ k) xs
  worst-All [] h = tt
  worst-All (x ∷ xs) h = (
    omega (arith, h, worst-head (f x) (map f xs)),
    worst-All xs (omega (arith, h, worst-tail (f x) (map f xs))),
  )

  pub All-worst :
      (xs : List A)
      → All (λ x. restrictiveness (f x) ≤ k) xs
      → restrictiveness (worst (map f xs)) ≤ k
  unfolding worst
  All-worst [] h = omega arith
  All-worst (x ∷ xs) h = worst-least (f x) (map f xs) k h.0 (All-worst xs h.1)

leb-zero : (n : ℕ) → leb 0 n ≡ true
leb-zero n = ground arith

worst-auto : (rest : List PolicyAction) → worst (PolicyAction.auto_apply ∷ rest) ≡ worst rest
unfolding worst
worst-auto rest = rw (leb-zero (restrictiveness (worst rest)))

abbrev is_trigger : PolicyAction × PolicyReason → Bool
is_trigger trigger = not (is_action trigger.0 PolicyAction.auto_apply)

worst-filter_cons :
    (a : PolicyAction) (r : PolicyReason) (ts : Triggers)
    → worst (map (λ t. t.0) (filter is_trigger ((a, r) ∷ ts)))
      ≡ worst (a ∷ map (λ t. t.0) (filter is_trigger ts))
worst-filter_cons PolicyAction.auto_apply r ts =
    sym (worst-auto (map (λ t. t.0) (filter is_trigger ts)))
worst-filter_cons PolicyAction.require_approval r ts = refl
worst-filter_cons PolicyAction.deny r ts = refl

worst-cons :
    (a : PolicyAction) (rest rest' : List PolicyAction)
    → worst rest ≡ worst rest'
    → worst (a ∷ rest) ≡ worst (a ∷ rest')
unfolding worst
worst-cons a rest rest' e = rw e

-- Leaving out the changes that are auto-apply does not change the worst.
pub worst-triggers_of :
    (policy : Policy) (changes : List SchemaChange)
    → worst (map (λ trigger. trigger.0) (triggers_of policy changes))
      ≡ worst (map (action_for policy) changes)
unfolding triggers_of
worst-triggers_of policy [] = refl
worst-triggers_of policy (c ∷ cs) =
    worst-filter_cons (action_for policy c) (for_change c)
      (map (λ d. (action_for policy d, for_change d)) cs)
    ∙ worst-cons (action_for policy c) _ _ (worst-triggers_of policy cs)

reasons-filter_cons :
    (a : PolicyAction) (c : SchemaChange) (ts : Triggers) (kept : List SchemaChange)
    → map (λ t. t.1) (filter is_trigger ts) ≡ map for_change kept
    → map (λ t. t.1) (filter is_trigger ((a, for_change c) ∷ ts))
      ≡ map for_change
          (elim (not (is_action a PolicyAction.auto_apply)) [ true ↦ c ∷ kept | false ↦ kept ])
reasons-filter_cons PolicyAction.auto_apply c ts kept e = e
reasons-filter_cons PolicyAction.require_approval c ts kept e = ap (λ rs. for_change c ∷ rs) e
reasons-filter_cons PolicyAction.deny c ts kept e = ap (λ rs. for_change c ∷ rs) e

-- The policy does not apply the change by itself.
abbrev pub is_held : Policy → SchemaChange → Bool
is_held policy change = not (is_action (action_for policy change) PolicyAction.auto_apply)

-- The reasons of the triggers are those of the changes that are not auto-apply, in order.
pub reasons-triggers_of :
    (policy : Policy) (changes : List SchemaChange)
    → map (λ trigger. trigger.1) (triggers_of policy changes)
      ≡ map for_change (filter (is_held policy) changes)
unfolding triggers_of
reasons-triggers_of policy [] = refl
reasons-triggers_of policy (c ∷ cs) =
    reasons-filter_cons (action_for policy c) c (map (λ d. (action_for policy d, for_change d)) cs)
      (filter (is_held policy) cs) (reasons-triggers_of policy cs)

-- Above auto-apply, the worst is the action of one of the elements.
pub worst-attained :
    {A : Type 0} (f : A → PolicyAction) (xs : List A)
    → (worst (map f xs) ≡ PolicyAction.auto_apply)
      ⊎ ((x : A) × Memᴰ x xs × (f x ≡ worst (map f xs)))
unfolding worst
worst-attained f [] = inl refl
worst-attained f (x ∷ xs) =
    let from_tail = worst-attained f xs in
    elim (Bool-cases (leb (restrictiveness (f x)) (restrictiveness (worst (map f xs))))) [
      | inl le ↦ rw le (elim from_tail [ inl e ↦ inl e | inr (y, m, e) ↦ inr (y, Memᴰ.tail m, e) ])
      | inr gt ↦ rw gt (inr (x, Memᴰ.head refl, refl))
    ]
