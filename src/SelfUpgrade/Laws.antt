-- ===== src/SelfUpgrade/Laws.antt =====
-- What the operations under a self-upgrade do, of those of the operating system and of the supervised
-- unit: what a link names, how often the unit was restarted, and which notifications were sent.
use fraisier_core.Common.{
  ℕ, suc, ◌≡◌, ◌≢◌, String, Option, none, some, List, [], ◌∷◌, ◌++◌, ok, err,
}
use fraisier_core.Gate.Quiet.{Keeps}
use fraisier_core.SelfUpgrade.Types.{Bytes, IoError, FailurePayload}
use fraisier_core.SelfUpgrade.Layout.{Layout, staged_path, tmp_path, is_skipped}
use fraisier_core.SelfUpgrade.Apply.{Machine}
use fraisier_core.Common.{false}

-- The restarts and the notifications.
abbrev pub Calls : Type 0
Calls = ℕ × List FailurePayload

module _ {W : Type 0} (machine : Machine W) (layout : Layout) (links : String → W → Option String)
    (calls : W → Calls) where
  abbrev pub link : W → Option String
  link w = links layout.current w

  -- What a caller sees of the upgrade.
  abbrev pub seen : W → Option String × Calls
  seen w = (link w, calls w)

  pub record IsMachine : Type 0 where
    pub reading : (path : String) → Keeps seen ((machine.net).read path)
    pub downloading : (url : String) → Keeps seen ((machine.net).download url)
    pub making : (path : String) → Keeps seen ((machine.fs).create_dir_all path)
    pub writing : (path : String) (bytes : Bytes) → Keeps seen ((machine.fs).write path bytes)
    pub chmodding : (path : String) (mode : ℕ) → Keeps seen ((machine.fs).set_permissions path mode)
    pub resolving : (path : String) → Keeps seen ((machine.fs).read_link path)
    pub listing : (path : String) → Keeps seen ((machine.fs).read_dir path)
    pub inspecting : (path : String) → Keeps seen ((machine.fs).metadata path)
    pub activity : Keeps seen (machine.unit).is_active
    pub health : Keeps seen (machine.unit).healthy
    -- Another path than the link itself is removed or made a link.
    pub removing :
        (path : String) → path ≢ layout.current → Keeps seen ((machine.fs).remove_file path)
    pub linking :
        (target path : String)
        → path ≢ layout.current
        → Keeps seen ((machine.fs).symlink target path)
    pub linked :
        (target path : String) (w w' : W)
        → (machine.fs).symlink target path w ≡ (ok tt, w')
        → links path w' ≡ some target
    pub renames :
        (from : String) (w w' : W)
        → (machine.fs).rename from layout.current w ≡ (ok tt, w')
        → seen w' ≡ (links from w, calls w)
    pub rename_fails :
        (from : String) (w w' : W) (e : String)
        → (machine.fs).rename from layout.current w ≡ (err e, w')
        → seen w' ≡ seen w
    pub reads :
        (w w' : W) (target : String)
        → (machine.fs).read_link layout.current w ≡ (ok target, w')
        → link w ≡ some target
    pub reads_none :
        (w w' : W)
        → (machine.fs).read_link layout.current w ≡ (err IoError.not_found, w')
        → link w ≡ none
    pub restarting :
        (w : W) → seen ((machine.unit).restart w).1 ≡ (link w, (suc (calls w).0, (calls w).1))
    pub notifying :
        (payload : FailurePayload) (w : W)
        → seen ((machine.unit).notify payload w)
          ≡ (link w, ((calls w).0, (calls w).1 ++ payload ∷ []))
    -- Paths of other names than `current` are other paths.
    pub tmp_apart : tmp_path machine.fs machine.pid layout ≢ layout.current
    pub entry_apart :
        (name : String)
        → is_skipped machine.fs machine.pid layout name ≡ false
        → staged_path machine.fs machine.pid layout name ≢ layout.current
