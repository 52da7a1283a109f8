-- ===== src/SelfUpgrade/Pruning.antt =====
-- What pruning leaves alone: swap.rs.
use mathlib.Core.Option
use fraisier_core.Common.{
  ℕ, zero, suc, ◌≡◌, ◌≢◌, refl, ◌∙◌, String, Bool, true, false, Option, List, [], ◌∷◌, All, format,
  Result, ok, err, Done,
}
use fraisier_core.Gate.Quiet.{Keeps}
use fraisier_core.Retention.Policy.{Candidate}
use fraisier_core.Retention.Sort.{sort_newest, sort_newest-All}
use fraisier_core.SelfUpgrade.Types.{Error, Metadata}
use fraisier_core.SelfUpgrade.Layout.{
  Layout, staged_path, is_skipped, keep_file, after_rest, collect, is_active_path, add_removed,
  reap, reap_collected, after_read_dir, prune_from, prune,
}
use fraisier_core.SelfUpgrade.Apply.{Machine}
use fraisier_core.SelfUpgrade.Laws.{Calls, seen, IsMachine}
use fraisier_core.SelfUpgrade.Links.{active-Keeps}

module _ {W : Type 0} (machine : Machine W) (layout : Layout) (links : String → W → Option String)
    (calls : W → Calls) (laws : IsMachine machine layout links calls) where
  abbrev look : W → Option String × Calls
  look = seen machine layout links calls

  -- The files that are collected are not the link.
  abbrev IsApart : Candidate → Type 0
  IsApart c = c.path ≢ layout.current

  -- The collected files are apart from the link and collecting changed nothing.
  abbrev Collected : W → Result Error (List Candidate) × W → Type 0
  Collected w (ok found, w') = (look w' ≡ look w) × All IsApart found
  Collected w (err e, w') = look w' ≡ look w

  keep_file-All :
      (name : String) (meta : Metadata) (rest : List Candidate)
      → is_skipped machine.fs machine.pid layout name ≡ false
      → All IsApart rest
      → All IsApart (keep_file machine.fs machine.pid layout name meta rest)
  unfolding keep_file
  keep_file-All name meta rest e h = go meta.is_file
    where
      go :
          (is_file : Bool)
          → All IsApart (elim is_file [
            | true ↦
                record {
                  path = staged_path machine.fs machine.pid layout name;
                  taken_at = Option.get_or meta.modified 0;
                }
                ∷ rest
            | false ↦ rest
          ])
      go true = (laws.entry_apart name e, h)
      go false = h

  after_rest-Collected :
      (name : String) (meta : Metadata) (w w₀ : W) (r : Result Error (List Candidate) × W)
      → is_skipped machine.fs machine.pid layout name ≡ false
      → look w ≡ look w₀
      → Collected w r
      → Collected w₀ (after_rest machine.fs machine.pid layout name meta r)
  unfolding after_rest
  after_rest-Collected name meta w w₀ (ok rest, w') e same (kept, h) =
      (kept ∙ same, keep_file-All name meta rest e h)
  after_rest-Collected name meta w w₀ (err x, w') e same kept = kept ∙ same

  collect-Collected :
      (entries : List (Result String String)) (w : W)
      → Collected w (collect machine.fs machine.pid layout entries w)
  unfolding collect
  collect-Collected [] w = (refl, tt)
  collect-Collected (err e ∷ entries) w = refl
  collect-Collected (ok name ∷ entries) w =
      go (is_skipped machine.fs machine.pid layout name) refl ((machine.fs).metadata path w)
        (laws.inspecting path w) (collect-Collected entries w) (collect-Collected entries _)
    where
      path : String
      path = staged_path machine.fs machine.pid layout name

      go :
          (skipped : Bool)
          → is_skipped machine.fs machine.pid layout name ≡ skipped
          → (m : Result String Metadata × W) → look m.1 ≡ look w
          → Collected w (collect machine.fs machine.pid layout entries w)
          → Collected m.1 (collect machine.fs machine.pid layout entries m.1)
          → Collected w (elim skipped [
            | true ↦ collect machine.fs machine.pid layout entries w
            | false ↦ elim m.0 [
              | ok meta ↦
                  after_rest machine.fs machine.pid layout name meta
                    (collect machine.fs machine.pid layout entries m.1)
              | err e ↦ (err (Error.io (format ("stat " ∷ path ∷ ": " ∷ e ∷ []))), m.1)
            ]
          ])
      go true e m same here later = here
      go false e (ok meta, w') same here later = after_rest-Collected name meta w' w _ e same later
      go false e (err x, w') same here later = same

  add_removed-Keeps :
      (path : String) (r : Result Error (List String) × W)
      → look (add_removed machine.fs machine.pid layout path r).1 ≡ look r.1
  unfolding add_removed
  add_removed-Keeps path (ok removed, w) = refl
  add_removed-Keeps path (err e, w) = refl

  reap-Keeps :
      (activated : Option String) (keep : ℕ) (cs : List Candidate)
      → All IsApart cs
      → Keeps look (reap machine.fs machine.pid layout activated keep cs)
  unfolding reap
  reap-Keeps activated keep [] h w = refl
  reap-Keeps activated (suc keep) (c ∷ cs) h w = reap-Keeps activated keep cs h.1 w
  reap-Keeps activated zero (c ∷ cs) h w =
      go (is_active_path machine.fs machine.pid layout activated c.path)
        ((machine.fs).remove_file c.path w) (laws.removing c.path h.0 w)
        (reap-Keeps activated zero cs h.1 w) (reap-Keeps activated zero cs h.1 _)
    where
      go :
          (spared : Bool) (r : Result String Done × W)
          → look r.1 ≡ look w
          → look (reap machine.fs machine.pid layout activated zero cs w).1 ≡ look w
          → look (reap machine.fs machine.pid layout activated zero cs r.1).1 ≡ look r.1
          → look
              (elim spared as (λ x. Result Error (List String) × W) [
                | true ↦ reap machine.fs machine.pid layout activated zero cs w
                | false ↦ elim r.0 [
                  | ok _ ↦
                      add_removed machine.fs machine.pid layout c.path
                        (reap machine.fs machine.pid layout activated zero cs r.1)
                  | err e ↦ (err (Error.io (format ("removing " ∷ c.path ∷ ": " ∷ e ∷ []))), r.1)
                ]
              ]).1
            ≡ look w
      go true r same here later = here
      go false (ok _, w') same here later = add_removed-Keeps c.path _ ∙ later ∙ same
      go false (err e, w') same here later = same

  reap_collected-Keeps :
      (activated : Option String) (keep : ℕ) (w : W) (r : Result Error (List Candidate) × W)
      → Collected w r
      → look (reap_collected machine.fs machine.pid layout activated keep r).1 ≡ look w
  unfolding reap_collected
  reap_collected-Keeps activated keep w (ok found, w') (same, h) =
      reap-Keeps activated keep (sort_newest found) (sort_newest-All IsApart found h) w' ∙ same
  reap_collected-Keeps activated keep w (err e, w') same = same

  after_read_dir-Keeps :
      (activated : Option String) (keep : ℕ) (r : Result String (List (Result String String)) × W)
      → look (after_read_dir machine.fs machine.pid layout activated keep r).1 ≡ look r.1
  unfolding after_read_dir
  after_read_dir-Keeps activated keep (ok entries, w) =
      reap_collected-Keeps activated keep w _ (collect-Collected entries w)
  after_read_dir-Keeps activated keep (err e, w) = refl

  prune_from-Keeps :
      (keep : ℕ) (r : Result Error (Option String) × W)
      → look (prune_from machine.fs machine.pid layout keep r).1 ≡ look r.1
  unfolding prune_from
  prune_from-Keeps keep (ok activated, w) =
      after_read_dir-Keeps activated keep _ ∙ laws.listing layout.bin_dir w
  prune_from-Keeps keep (err e, w) = refl

  pub prune-Keeps : (keep : ℕ) → Keeps look (prune machine.fs machine.pid layout keep)
  unfolding prune
  prune-Keeps keep w = prune_from-Keeps keep _ ∙ active-Keeps machine layout links calls laws w
