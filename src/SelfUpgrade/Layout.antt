-- ===== src/SelfUpgrade/Layout.antt =====
-- The directory of staged binaries and the link to the active one: swap.rs, over the helpers of
-- staging.rs. `pid` is the process id, displayed.
use mathlib.Core.Option
use fraisier_core.Common.{
  ℕ, zero, suc, String, Bool, true, false, ◌||◌, Option, none, some, List, [], ◌∷◌, format, str_eq,
  Result, ok, err, Done,
}
use fraisier_core.Retention.Policy.{Candidate}
use fraisier_core.Retention.Sort.{sort_newest}
use fraisier_core.SelfUpgrade.Types.{Bytes, Error, IoError, Metadata, Fs}

pub record Layout : Type 0 where
  pub bin_dir : String
  pub current : String

-- `0o755`
abbrev pub executable : ℕ
executable = 493

module _ {W : Type 0} (fs : Fs W) (pid : String) where
  -- `Layout::new`
  abbrev pub new : String → Layout
  new bin_dir = record { bin_dir = bin_dir; current = fs.join bin_dir "current" }

  -- What follows `read_link` in `staging::read_active_link`; the adapter's message is kept.
  unfoldable pub link_name : Result IoError String × W → Result Error (Option String) × W
  link_name (ok target, w) = (ok (fs.file_name target), w)
  link_name (err IoError.not_found, w) = (ok none, w)
  link_name (err (IoError.other cause), w) =
      (err (Error.io (format ("failed to read active link: " ∷ cause ∷ []))), w)

  -- What follows the `rename` of `staging::activate_symlink`.
  unfoldable pub after_rename : (tmp : String) → Result String Done × W → Result Error Done × W
  after_rename tmp (ok _, w) = (ok tt, w)
  after_rename tmp (err cause, w) = (
    err (Error.io (format ("failed to swap active symlink: " ∷ cause ∷ []))),
    (fs.remove_file tmp w).1,
  )

  unfoldable pub after_symlink :
      (tmp current : String) → Result String Done × W → Result Error Done × W
  after_symlink tmp current (ok _, w) = after_rename tmp (fs.rename tmp current w)
  after_symlink tmp current (err cause, w) =
      (err (Error.io (format ("failed to create symlink: " ∷ cause ∷ []))), w)

  module _ (layout : Layout) where
    -- `Layout::active`
    unfoldable pub active : W → Result Error (Option String) × W
    active w = link_name (fs.read_link layout.current w)

    abbrev pub staged_path : String → String
    staged_path id = fs.join layout.bin_dir id

    -- The temporary link beside `current`, whose file name is that of `current`.
    abbrev pub tmp_path : String
    tmp_path = staged_path (format ("current.fraisier-tmp-" ∷ pid ∷ []))

    unfoldable pub after_chmod : String → Result String Done × W → Result Error String × W
    after_chmod path (ok _, w) = (ok path, w)
    after_chmod path (err e, w) = (err (Error.io (format ("chmod +x " ∷ path ∷ ": " ∷ e ∷ []))), w)

    unfoldable pub after_write : String → Result String Done × W → Result Error String × W
    after_write path (ok _, w) = after_chmod path (fs.set_permissions path executable w)
    after_write path (err e, w) = (err (Error.io (format ("writing " ∷ path ∷ ": " ∷ e ∷ []))), w)

    unfoldable pub after_mkdir : String → Bytes → Result String Done × W → Result Error String × W
    after_mkdir id bytes (ok _, w) =
        after_write (staged_path id) (fs.write (staged_path id) bytes w)
    after_mkdir id bytes (err e, w) =
        (err (Error.io (format ("creating " ∷ layout.bin_dir ∷ ": " ∷ e ∷ []))), w)

    -- `Layout::stage`
    unfoldable pub stage : String → Bytes → W → Result Error String × W
    stage id bytes w = after_mkdir id bytes (fs.create_dir_all layout.bin_dir w)

    -- `Layout::activate`
    unfoldable pub activate : String → W → Result Error Done × W
    activate id w =
        after_symlink tmp_path layout.current
          (fs.symlink (staged_path id) tmp_path (fs.remove_file tmp_path w).1)

    abbrev pub is_skipped : String → Bool
    is_skipped name = str_eq name "current" || fs.starts_with "current.fraisier-tmp-" name

    -- A regular file among the entries, newest times last known.
    unfoldable pub keep_file : String → Metadata → List Candidate → List Candidate
    keep_file name meta rest = elim meta.is_file [
      | true ↦ record { path = staged_path name; taken_at = Option.get_or meta.modified 0 } ∷ rest
      | false ↦ rest
    ]

    unfoldable pub after_rest :
        String → Metadata → Result Error (List Candidate) × W → Result Error (List Candidate) × W
    after_rest name meta (ok rest, w) = (ok (keep_file name meta rest), w)
    after_rest name meta (err e, w) = (err e, w)

    -- The loop over the entries.
    unfoldable pub collect : List (Result String String) → W → Result Error (List Candidate) × W
    collect [] w = (ok [], w)
    collect (err e ∷ entries) w = (err (Error.io (format ("reading dir entry: " ∷ e ∷ []))), w)
    collect (ok name ∷ entries) w =
        let skipped = collect entries w in
        let (m, w') = fs.metadata (staged_path name) w in
        let later = collect entries w' in
        elim (is_skipped name) [
          | true ↦ skipped
          | false ↦ elim m [
            | ok meta ↦ after_rest name meta later
            | err e ↦ (err (Error.io (format ("stat " ∷ staged_path name ∷ ": " ∷ e ∷ []))), w')
          ]
        ]

    -- `path.file_name().is_some_and(|name| name == id)`
    abbrev pub is_named : Option String → String → Bool
    is_named none id = false
    is_named (some name) id = str_eq name id

    abbrev pub is_active_path : Option String → String → Bool
    is_active_path none path = false
    is_active_path (some id) path = is_named (fs.file_name path) id

    unfoldable pub add_removed :
        String → Result Error (List String) × W → Result Error (List String) × W
    add_removed path (ok removed, w) = (ok (path ∷ removed), w)
    add_removed path (err e, w) = (err e, w)

    -- The loop over the sorted binaries, with how many of them are still to be kept.
    unfoldable pub reap : Option String → ℕ → List Candidate → W → Result Error (List String) × W
    reap activated keep [] w = (ok [], w)
    reap activated (suc keep) (c ∷ cs) w = reap activated keep cs w
    reap activated zero (c ∷ cs) w =
        let spared = reap activated zero cs w in
        let (r, w') = fs.remove_file c.path w in
        let later = reap activated zero cs w' in
        elim (is_active_path activated c.path) [
          | true ↦ spared
          | false ↦ elim r [
            | ok _ ↦ add_removed c.path later
            | err e ↦ (err (Error.io (format ("removing " ∷ c.path ∷ ": " ∷ e ∷ []))), w')
          ]
        ]

    unfoldable pub reap_collected :
        Option String → ℕ → Result Error (List Candidate) × W → Result Error (List String) × W
    reap_collected activated keep (ok staged, w) = reap activated keep (sort_newest staged) w
    reap_collected activated keep (err e, w) = (err e, w)

    unfoldable pub after_read_dir :
        Option String
        → ℕ
        → Result String (List (Result String String)) × W
        → Result Error (List String) × W
    after_read_dir activated keep (ok entries, w) =
        reap_collected activated keep (collect entries w)
    after_read_dir activated keep (err e, w) =
        (err (Error.io (format ("reading " ∷ layout.bin_dir ∷ ": " ∷ e ∷ []))), w)

    unfoldable pub prune_from :
        ℕ → Result Error (Option String) × W → Result Error (List String) × W
    prune_from keep (ok activated, w) = after_read_dir activated keep (fs.read_dir layout.bin_dir w)
    prune_from keep (err e, w) = (err e, w)

    -- `Layout::prune`
    unfoldable pub prune : ℕ → W → Result Error (List String) × W
    prune keep w = prune_from keep (active w)
