-- ===== src/SelfUpgrade/Links.antt =====
-- What the operations on the layout and the polling of the unit change: swap.rs, staging.rs, apply.rs.
use fraisier_core.Common.{
  ℕ, zero, suc, ◌≡◌, refl, sym, ◌∙◌, ap, subst, ◌⊎◌, inl, inr, String, Bool, true, false, Option,
  none, some, Result, ok, err, Done,
}
use fraisier_core.Gate.Quiet.{Keeps}
use fraisier_core.SelfUpgrade.Types.{Bytes, Error, IoError}
use fraisier_core.SelfUpgrade.Source.{Source, verified_from, checksum_from, download_then, fetch}
use fraisier_core.SelfUpgrade.Layout.{
  Layout, executable, link_name, after_rename, after_symlink, active, staged_path, tmp_path,
  after_chmod, after_write, after_mkdir, stage, activate,
}
use fraisier_core.SelfUpgrade.Apply.{
  Machine, healthy_if, answers, unless_up, poll, after_restart, bring_up,
}
use fraisier_core.SelfUpgrade.Laws.{Calls, link, seen, IsMachine}

module _ {W : Type 0} (machine : Machine W) (layout : Layout) (links : String → W → Option String)
    (calls : W → Calls) (laws : IsMachine machine layout links calls) where
  -- What a caller sees.
  abbrev look : W → Option String × Calls
  look = seen machine layout links calls

  verified_from-Keeps :
      (as_error : String → Error) (expected : Option String) (r : Result String Bytes × W)
      → look (verified_from machine.net as_error expected r).1 ≡ look r.1
  unfolding verified_from
  verified_from-Keeps as_error expected (ok bytes, w) = refl
  verified_from-Keeps as_error expected (err e, w) = refl

  checksum_from-Keeps :
      (bytes : Bytes) (r : Result String Bytes × W)
      → look (checksum_from machine.net bytes r).1 ≡ look r.1
  unfolding checksum_from
  checksum_from-Keeps bytes (ok raw, w) = refl
  checksum_from-Keeps bytes (err e, w) = refl

  download_then-Keeps :
      (checksum_url : String) (r : Result String Bytes × W)
      → look (download_then machine.net checksum_url r).1 ≡ look r.1
  unfolding download_then
  download_then-Keeps checksum_url (ok bytes, w) =
      checksum_from-Keeps bytes _ ∙ laws.downloading checksum_url w
  download_then-Keeps checksum_url (err e, w) = refl

  pub fetch-Keeps : (source : Source) → Keeps look (fetch machine.net source)
  unfolding fetch
  fetch-Keeps (Source.path file sha256) w =
      verified_from-Keeps Error.io sha256 _ ∙ laws.reading file w
  fetch-Keeps (Source.url address (some sum) checksum_url) w =
      verified_from-Keeps Error.fetch (some sum) _ ∙ laws.downloading address w
  fetch-Keeps (Source.url address none (some checksum_url)) w =
      download_then-Keeps checksum_url _ ∙ laws.downloading address w
  fetch-Keeps (Source.url address none none) w =
      verified_from-Keeps Error.fetch none _ ∙ laws.downloading address w

  link_name-Keeps :
      (r : Result IoError String × W) → look (link_name machine.fs machine.pid r).1 ≡ look r.1
  unfolding link_name
  link_name-Keeps (ok target, w) = refl
  link_name-Keeps (err IoError.not_found, w) = refl
  link_name-Keeps (err (IoError.other cause), w) = refl

  pub active-Keeps : Keeps look (active machine.fs machine.pid layout)
  unfolding active
  active-Keeps w = link_name-Keeps _ ∙ laws.resolving layout.current w

  -- What `active` answers.
  pub active-link :
      (w w' : W) (o : Option String)
      → active machine.fs machine.pid layout w ≡ (ok o, w')
      → ((link machine layout links calls w ≡ none) × (o ≡ none))
        ⊎ ((target : String) × (link machine layout links calls w ≡ some target)
            × (o ≡ (machine.fs).file_name target))
  unfolding active link_name
  active-link w w' o q = go ((machine.fs).read_link layout.current w) refl q
    where
      go :
          (r : Result IoError String × W)
          → (machine.fs).read_link layout.current w ≡ r
          → link_name machine.fs machine.pid r ≡ (ok o, w')
          → ((link machine layout links calls w ≡ none) × (o ≡ none))
            ⊎ ((target : String) × (link machine layout links calls w ≡ some target)
                × (o ≡ (machine.fs).file_name target))
      go (ok target, w₁) e g = inr (target, laws.reads w w₁ target e, cc g)
      go (err IoError.not_found, w₁) e g = inl (laws.reads_none w w₁ e, cc g)
      go (err (IoError.other cause), w₁) e g = cc g

  after_chmod-Keeps :
      (path : String) (r : Result String Done × W)
      → look (after_chmod machine.fs machine.pid layout path r).1 ≡ look r.1
  unfolding after_chmod
  after_chmod-Keeps path (ok _, w) = refl
  after_chmod-Keeps path (err e, w) = refl

  after_write-Keeps :
      (path : String) (r : Result String Done × W)
      → look (after_write machine.fs machine.pid layout path r).1 ≡ look r.1
  unfolding after_write
  after_write-Keeps path (ok _, w) = after_chmod-Keeps path _ ∙ laws.chmodding path executable w
  after_write-Keeps path (err e, w) = refl

  after_mkdir-Keeps :
      (id : String) (bytes : Bytes) (r : Result String Done × W)
      → look (after_mkdir machine.fs machine.pid layout id bytes r).1 ≡ look r.1
  unfolding after_mkdir
  after_mkdir-Keeps id bytes (ok _, w) =
      after_write-Keeps (staged_path machine.fs machine.pid layout id) _
      ∙ laws.writing (staged_path machine.fs machine.pid layout id) bytes w
  after_mkdir-Keeps id bytes (err e, w) = refl

  pub stage-Keeps :
      (id : String) (bytes : Bytes) → Keeps look (stage machine.fs machine.pid layout id bytes)
  unfolding stage
  stage-Keeps id bytes w = after_mkdir-Keeps id bytes _ ∙ laws.making layout.bin_dir w

  -- The result of a repointing: the link names the target, or nothing changed.
  abbrev pub Points : String → Option String × Calls → Result Error Done × W → Type 0
  Points target before (ok _, w) = look w ≡ (some target, before.1)
  Points target before (err e, w) = look w ≡ before

  after_rename-Points :
      (target : String) (w : W) (r : Result String Done × W)
      → links (tmp_path machine.fs machine.pid layout) w ≡ some target
      → (machine.fs).rename (tmp_path machine.fs machine.pid layout) layout.current w ≡ r
      → Points target
          (look w)
          (after_rename machine.fs machine.pid (tmp_path machine.fs machine.pid layout) r)
  unfolding after_rename
  after_rename-Points target w (ok _, w') named e =
      laws.renames (tmp_path machine.fs machine.pid layout) w w' e ∙ ap (λ o. (o, calls w)) named
  after_rename-Points target w (err x, w') named e =
      laws.removing (tmp_path machine.fs machine.pid layout) laws.tmp_apart w'
      ∙ laws.rename_fails (tmp_path machine.fs machine.pid layout) w w' x e

  after_symlink-Points :
      (target : String) (w : W) (r : Result String Done × W)
      → (machine.fs).symlink target (tmp_path machine.fs machine.pid layout) w ≡ r
      → Points target (look w) (
          after_symlink machine.fs machine.pid
            (tmp_path machine.fs machine.pid layout)
            layout.current
            r)
  unfolding after_symlink
  after_symlink-Points target w (ok _, w') e =
      let tmp = tmp_path machine.fs machine.pid layout in
      let same = ap (λ r. look r.1) (sym e) ∙ laws.linking target tmp laws.tmp_apart w in
      subst
        (λ before.
          Points target before
            (after_rename machine.fs machine.pid tmp ((machine.fs).rename tmp layout.current w')))
        same (after_rename-Points target w' _ (laws.linked target tmp w w' e) refl)
  after_symlink-Points target w (err x, w') e =
      ap (λ r. look r.1) (sym e)
      ∙ laws.linking target (tmp_path machine.fs machine.pid layout) laws.tmp_apart w

  -- Repointing names the staged binary, or fails and changes nothing that is seen.
  pub activate-Points :
      (id : String) (w : W)
      → Points
          (staged_path machine.fs machine.pid layout id)
          (look w)
          (activate machine.fs machine.pid layout id w)
  unfolding activate
  activate-Points id w =
      let tmp = tmp_path machine.fs machine.pid layout in
      let target = staged_path machine.fs machine.pid layout id in
      let w₁ = ((machine.fs).remove_file tmp w).1 in
      subst
        (λ before. Points target before (
          after_symlink machine.fs machine.pid tmp layout.current
            ((machine.fs).symlink target tmp w₁)))
        (laws.removing tmp laws.tmp_apart w) (after_symlink-Points target w₁ _ refl)

  healthy_if-Keeps : (r : Bool × W) → look (healthy_if machine.unit r).1 ≡ look r.1
  unfolding healthy_if
  healthy_if-Keeps (true, w) = laws.health w
  healthy_if-Keeps (false, w) = refl

  answers-Keeps : Keeps look (answers machine.unit)
  unfolding answers
  answers-Keeps w = healthy_if-Keeps _ ∙ laws.activity w

  unless_up-Keeps :
      (r later : Bool × W)
      → look later.1 ≡ look r.1
      → look (unless_up machine.unit r later).1 ≡ look r.1
  unfolding unless_up
  unless_up-Keeps (true, w) later h = refl
  unless_up-Keeps (false, w) later h = h

  poll-Keeps : (rounds : ℕ) → Keeps look (poll machine.unit rounds)
  unfolding poll
  poll-Keeps zero w = refl
  poll-Keeps (suc rounds) w =
      unless_up-Keeps (answers machine.unit w) (poll machine.unit rounds _) (poll-Keeps rounds _)
      ∙ answers-Keeps w

  after_restart-Keeps :
      (r : Result String Done × W) → look (after_restart machine.unit r).1 ≡ look r.1
  unfolding after_restart
  after_restart-Keeps (ok _, w) = poll-Keeps _ w
  after_restart-Keeps (err e, w) = refl

  -- Bringing the unit up restarts it once, whatever it answers.
  pub bring_up-restarts :
      (w : W)
      → look (bring_up machine.unit w).1
        ≡ (link machine layout links calls w, (suc (calls w).0, (calls w).1))
  unfolding bring_up
  bring_up-restarts w = after_restart-Keeps _ ∙ laws.restarting w
