-- ===== src/SelfUpgrade/Types.antt =====
-- The types of a self-upgrade, apply.rs, source.rs, notify.rs, lib.rs: and the operating system's file
-- operations as a record of operations that may change the world `W`. A path is its text.
use fraisier_core.Common.{ℕ, String, Bool, Option, List, [], ◌∷◌, format, Result, Done}

abbrev pub Bytes : Type 0
Bytes = List ℕ

-- `enum Error`
pub data Error : Type 0 where
  fetch : String → Error
  io : String → Error
  checksum_mismatch : (expected actual : String) → Error

-- Its display.
unfoldable pub show_upgrade : Error → String
show_upgrade (Error.fetch message) = format ("fetch failed: " ∷ message ∷ [])
show_upgrade (Error.io message) = format ("io error: " ∷ message ∷ [])
show_upgrade (Error.checksum_mismatch expected actual) =
    format ("checksum mismatch: expected " ∷ expected ∷ ", got " ∷ actual ∷ [])

pub record Verified : Type 0 where
  pub bytes : Bytes
  pub digest : String
  pub verified : Bool

pub record FailurePayload : Type 0 where
  pub event : String
  pub failed : Option String
  pub restored : Option String
  pub reason : String

pub data ApplyOutcome : Type 0 where
  committed : (id : String) (pruned : ℕ) → ApplyOutcome
  reverted : (failed restored reason : String) → ApplyOutcome
  manual_intervention : (reason : String) → ApplyOutcome
  aborted_before_swap : (reason : String) → ApplyOutcome

-- `std::io::Error`, as far as the code looks at it.
pub data IoError : Type 0 where
  not_found : IoError
  other : String → IoError

-- `std::fs::Metadata`; the time is a number, if it can be read.
pub record Metadata : Type 0 where
  pub is_file : Bool
  pub modified : Option ℕ

-- `std::fs`, with `Path::join`, `Path::file_name` and `str::starts_with`. An entry of a directory may
-- fail to be read; it is its name, and its path is the directory's path joined with it.
pub record Fs (W : Type 0) : Type 0 where
  pub create_dir_all : String → W → Result String Done × W
  pub write : String → Bytes → W → Result String Done × W
  pub set_permissions : String → ℕ → W → Result String Done × W
  pub remove_file : String → W → Result String Done × W
  pub symlink : (target link : String) → W → Result String Done × W
  pub rename : (from to : String) → W → Result String Done × W
  pub read_link : String → W → Result IoError String × W
  pub read_dir : String → W → Result String (List (Result String String)) × W
  pub metadata : String → W → Result String Metadata × W
  pub join : String → String → String
  pub file_name : String → Option String
  pub starts_with : (prefix text : String) → Bool

-- `trait Supervisor`, `trait Health`, `trait Notifier`. `rounds` says how many rounds of a polling loop
-- end before its timeout, when it starts in a given world.
pub record ServiceUnit (W : Type 0) : Type 0 where
  pub restart : W → Result String Done × W
  pub is_active : W → Bool × W
  pub healthy : W → Bool × W
  pub notify : FailurePayload → W → W
  pub rounds : W → ℕ
