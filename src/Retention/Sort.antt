-- ===== src/Retention/Sort.antt =====
-- The standard library's stable sort, as `plan` of retention.rs calls it: newest first, and among
-- equals in the order given.
use mathlib.Core.List.Perm
use mathlib.Core.List.{Perm}
use fraisier_core.Common.{◌≤◌, All, List, [], ◌∷◌, ltb, arith, if◌then◌else◌, Bool-cases, inl, inr}
use fraisier_core.Retention.Policy.{Candidate}

unfoldable pub insert_newest : Candidate → List Candidate → List Candidate
insert_newest c [] = c ∷ []
insert_newest c (d ∷ ds) = if ltb c.taken_at d.taken_at then d ∷ insert_newest c ds else c ∷ d ∷ ds

-- `candidates.sort_by_key(|candidate| Reverse(candidate.taken_at))`
unfoldable pub sort_newest : List Candidate → List Candidate
sort_newest [] = []
sort_newest (c ∷ cs) = insert_newest c (sort_newest cs)

-- No candidate is older than one behind it.
abbrev pub IsNewestFirst : List Candidate → Type 0
IsNewestFirst [] = Unit
IsNewestFirst (c ∷ cs) = All (λ d. d.taken_at ≤ c.taken_at) cs × IsNewestFirst cs

insert_newest-perm : (c : Candidate) (cs : List Candidate) → Perm (insert_newest c cs) (c ∷ cs)
unfolding insert_newest
insert_newest-perm c [] = Perm.refl (c ∷ [])
insert_newest-perm c (d ∷ ds) = elim (Bool-cases (ltb c.taken_at d.taken_at)) [
  | inl older ↦ rw older (Perm.trans (Perm.cons d (insert_newest-perm c ds)) (Perm.swap c d ds))
  | inr newer ↦ rw newer (Perm.refl (c ∷ d ∷ ds))
]

pub sort_newest-perm : (cs : List Candidate) → Perm (sort_newest cs) cs
unfolding sort_newest
sort_newest-perm [] = Perm.refl []
sort_newest-perm (c ∷ cs) =
    Perm.trans (insert_newest-perm c (sort_newest cs)) (Perm.cons c (sort_newest-perm cs))

insert_newest-All :
    (P : Candidate → Type 0) (c : Candidate) (cs : List Candidate)
    → P c
    → All P cs
    → All P (insert_newest c cs)
unfolding insert_newest
insert_newest-All P c [] h hs = (h, tt)
insert_newest-All P c (d ∷ ds) h hs = elim (Bool-cases (ltb c.taken_at d.taken_at)) [
  | inl older ↦ rw older (hs.0, insert_newest-All P c ds h hs.1)
  | inr newer ↦ rw newer (h, hs)
]

All-newer :
    (c d : Candidate) (cs : List Candidate)
    → d.taken_at ≤ c.taken_at
    → All (λ e. e.taken_at ≤ d.taken_at) cs
    → All (λ e. e.taken_at ≤ c.taken_at) cs
All-newer c d [] le h = tt
All-newer c d (e ∷ cs) le h = (omega arith, All-newer c d cs le h.1)

insert_newest-IsNewestFirst :
    (c : Candidate) (cs : List Candidate) → IsNewestFirst cs → IsNewestFirst (insert_newest c cs)
unfolding insert_newest
insert_newest-IsNewestFirst c [] h = (tt, tt)
insert_newest-IsNewestFirst c (d ∷ ds) h = elim (Bool-cases (ltb c.taken_at d.taken_at)) [
  | inl older ↦
      rw older (insert_newest-All _ c ds (ground arith) h.0, insert_newest-IsNewestFirst c ds h.1)
  | inr newer ↦
      let le : d.taken_at ≤ c.taken_at = ground arith in rw newer ((le, All-newer c d ds le h.0), h)
]

pub sort_newest-IsNewestFirst : (cs : List Candidate) → IsNewestFirst (sort_newest cs)
unfolding sort_newest
sort_newest-IsNewestFirst [] = tt
sort_newest-IsNewestFirst (c ∷ cs) =
    insert_newest-IsNewestFirst c (sort_newest cs) (sort_newest-IsNewestFirst cs)

pub sort_newest-All :
    (P : Candidate → Type 0) (cs : List Candidate) → All P cs → All P (sort_newest cs)
unfolding sort_newest
sort_newest-All P [] h = tt
sort_newest-All P (c ∷ cs) h = insert_newest-All P c (sort_newest cs) h.0 (sort_newest-All P cs h.1)
