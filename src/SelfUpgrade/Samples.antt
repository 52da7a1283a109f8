-- ===== src/SelfUpgrade/Samples.antt =====
-- Upgrades of a small machine: tests, and the theorems at them.
use mathlib.Core.Bool.{false≢true}
use fraisier_core.Common.{
  ℕ, suc, ◌≡◌, ◌≢◌, refl, sym, ◌∙◌, ap, subst, String, Bool, true, false, Option, none, some, List,
  [], ◌∷◌, ◌++◌, map, eq_iff, str_eq, format, Result, ok, err,
}
use fraisier_core.Retention.Policy.{Candidate}
use fraisier_core.Retention.Sort.{insert_newest, sort_newest}
use fraisier_core.SelfUpgrade.Types.{IoError, Verified, Fs, ServiceUnit}
use fraisier_core.SelfUpgrade.Source.{Source, Net, fetch, verified_from, check_expected}
use fraisier_core.SelfUpgrade.Layout.{
  Layout, staged_path, add_removed, reap, reap_collected, after_read_dir, prune_from, prune,
  collect, after_rest, keep_file, active, link_name, stage, after_mkdir, after_write, after_chmod,
  activate, after_symlink, after_rename, tmp_path,
}
use fraisier_core.SelfUpgrade.Apply.{
  Plan, Machine, healthy_if, answers, unless_up, poll, after_restart, bring_up, resolve_id,
  after_revert, after_repoint, revert, after_bring_up, after_activate, after_stage, after_active,
  after_fetch, apply_if, apply,
}
use fraisier_core.SelfUpgrade.Laws.{Calls, IsMachine}
use fraisier_core.SelfUpgrade.Outcomes.{look, IsTidy, Ends, apply-Ends}
use fraisier_core.SelfUpgrade.Checked.{IsChecked, fetch-IsChecked}

-- The link `current`, the temporary link, the restarts and the notifications.
abbrev World : Type 0
World = Option String × (Option String × Calls)

abbrev layout : Layout
layout = record { bin_dir = "bin"; current = "current" }

abbrev links_at : Bool → World → Option String
links_at true (link, (tmp, calls)) = link
links_at false (link, (tmp, calls)) = tmp

abbrev links : String → World → Option String
links path = links_at (str_eq path "current")

abbrev remove_at : Bool → World → World
remove_at true (link, rest) = (none, rest)
remove_at false (link, (tmp, calls)) = (link, (none, calls))

abbrev link_at : Bool → String → World → World
link_at true target (link, rest) = (some target, rest)
link_at false target (link, (tmp, calls)) = (link, (some target, calls))

abbrev read : Option String → Result IoError String
read none = err IoError.not_found
read (some target) = ok target

abbrev path_of : Bool → String → String
path_of true name = "other"
path_of false name = name

-- A name is its own path in the directory, but that no path is the link's.
abbrev fs : Fs World
fs = record {
  create_dir_all = λ path w. (ok tt, w);
  write = λ path bytes w. (ok tt, w);
  set_permissions = λ path mode w. (ok tt, w);
  remove_file = λ path w. (ok tt, remove_at (str_eq path "current") w);
  symlink = λ target path w. (ok tt, link_at (str_eq path "current") target w);
  rename = λ from to w. (ok tt, (links from w, w.1));
  read_link = λ path w. (read (links path w), w);
  read_dir = λ path w. (ok [], w);
  metadata = λ path w. (err "no such file", w);
  join = λ dir name. path_of (str_eq name "current") name;
  file_name = λ path. some path;
  starts_with = λ prefix text. false;
}

-- Unhealthy as long as the new binary runs.
abbrev unit : ServiceUnit World
unit = record {
  restart = λ (link, (tmp, (restarts, sent))). (ok tt, (link, (tmp, (suc restarts, sent))));
  is_active = λ w. (true, w);
  healthy = λ w. (elim w.0 [ none ↦ false | some target ↦ str_eq target "v1" ], w);
  notify =
      λ payload (link, (tmp, (restarts, sent))). (link, (tmp, (restarts, sent ++ payload ∷ [])));
  rounds = λ w. 2;
}

abbrev net : Net World
net = record {
  read = λ path w. (ok (7 ∷ []), w);
  download = λ url w. (err "offline", w);
  hex_digest = λ bytes. "07";
  first_token = λ bytes. none;
  normalise = λ text. text;
}

abbrev machine : Machine World
machine = record { fs = fs; net = net; unit = unit; pid = "9"; first = λ n text. text }

abbrev plan : Plan
plan = record {
  source = Source.path "new" (some "07");
  layout = layout;
  version = some "v2";
  keep = 2;
  systemd_available = true;
}

abbrev running : World
running = (some "v1", (none, (0, [])))

abbrev calls : World → Calls
calls w = w.1.1

not-current : (path : String) → path ≢ "current" → str_eq path "current" ≡ false
not-current path h = go (str_eq path "current") refl
  where
    go : (b : Bool) → str_eq path "current" ≡ b → b ≡ false
    go true e = absurd (h ((eq_iff path "current").0 e))
    go false e = refl

links-link_at :
    (b : Bool) (target : String) (w : World) → links_at b (link_at b target w) ≡ some target
links-link_at true target w = refl
links-link_at false target w = refl

read-some : (o : Option String) (target : String) → read o ≡ ok target → o ≡ some target
read-some none target q = cc q
read-some (some found) target q = cc q

read-none : (o : Option String) → read o ≡ err IoError.not_found → o ≡ none
read-none none q = refl
read-none (some found) q = cc q

path_of-ne : (name : String) → path_of (str_eq name "current") name ≢ "current"
path_of-ne name = go (str_eq name "current") refl
  where
    go : (b : Bool) → str_eq name "current" ≡ b → path_of b name ≢ "current"
    go true e h = absurd (false≢true ((eq_iff "other" "current").1 h))
    go false e h = absurd (false≢true (sym e ∙ (eq_iff name "current").1 h))

tmp_is_apart : tmp_path fs "9" layout ≢ "current"
tmp_is_apart = path_of-ne (format ("current.fraisier-tmp-" ∷ "9" ∷ []))

laws : IsMachine machine layout links calls
laws = record {
  reading = λ path w. refl;
  downloading = λ url w. refl;
  making = λ path w. refl;
  writing = λ path bytes w. refl;
  chmodding = λ path mode w. refl;
  resolving = λ path w. refl;
  listing = λ path w. refl;
  inspecting = λ path w. refl;
  activity = λ w. refl;
  health = λ w. refl;
  removing = λ path h w. ap (λ b. ((remove_at b w).0, (remove_at b w).1.1)) (not-current path h);
  linking = λ target path h w.
      ap (λ b. ((link_at b target w).0, (link_at b target w).1.1)) (not-current path h);
  linked = λ target path w w' q.
      ap (λ r. links path r.1) (sym q) ∙ links-link_at (str_eq path "current") target w;
  renames = λ from w w' q. ap (λ r. (r.1.0, r.1.1.1)) (sym q);
  rename_fails = λ from w w' e q. cc q;
  reads = λ w w' target q. read-some w.0 target (ap (λ r. r.0) q);
  reads_none = λ w w' q. read-none w.0 (ap (λ r. r.0) q);
  restarting = λ w. refl;
  notifying = λ payload w. refl;
  tmp_apart = tmp_is_apart;
  entry_apart = λ name e. path_of-ne name;
}

tidy : IsTidy machine plan links calls laws running
unfolding format
tidy target e =
    let same : "v1" ≡ target = cc e in
    subst (λ t. (prior : String) × (t ≡ staged_path fs "9" layout prior) × (some t ≡ some prior))
      same ("v1", refl, refl)

program : Unit {0}
unfolding apply apply_if after_fetch fetch verified_from check_expected active link_name
    after_active resolve_id stage after_mkdir after_write after_chmod after_stage activate
    after_symlink after_rename after_activate bring_up after_restart poll unless_up answers
    healthy_if after_bring_up revert after_repoint after_revert format
program = tt

-- The new binary never answers: the link goes back, after two restarts.
back_to_v1 :
    ((apply machine plan running).1.0 ≡ some "v1") × ((apply machine plan running).1.1.1.0 ≡ 2)
unfolding program
back_to_v1 = (refl, refl)

apply-Ends_example :
    Ends machine plan links calls laws
      (some "v1", (0, []))
      (apply machine plan running).0
      (look machine plan links calls laws (apply machine plan running).1)
apply-Ends_example = apply-Ends machine plan links calls laws running tidy

abbrev staged_at : String → ℕ → Candidate
staged_at path taken_at = record { path = path; taken_at = taken_at }

abbrev binaries : List Candidate
binaries = staged_at "v1" 10 ∷ staged_at "v3" 30 ∷ staged_at "v0" 5 ∷ staged_at "v2" 20 ∷ []

-- `v1` is active, and the two newest are kept.
v0_removed :
    reap fs "9" layout (some "v1") 2 (sort_newest binaries) running ≡ (ok ("v0" ∷ []), running)
unfolding reap add_removed sort_newest insert_newest
v0_removed = refl

-- The file system with these binaries in its directory.
abbrev taken_at_of : List Candidate → String → ℕ
taken_at_of [] path = 0
taken_at_of (c ∷ cs) path = elim (str_eq c.path path) [
  | true ↦ c.taken_at
  | false ↦ taken_at_of cs path
]

abbrev with_binaries : Fs World
with_binaries = record fs {
  read_dir = λ path w. (ok (map (λ c. ok c.path) binaries), w);
  metadata =
      λ path w. (ok (record { is_file = true; modified = some (taken_at_of binaries path) }), w);
}

pruned_v0 : (prune with_binaries "9" layout 2 running).0 ≡ ok ("v0" ∷ [])
unfolding prune prune_from after_read_dir reap_collected collect after_rest keep_file reap
    add_removed sort_newest insert_newest active link_name
pruned_v0 = refl

abbrev fetched : Verified
fetched = record { bytes = 7 ∷ []; digest = "07"; verified = true }

fetch_v2 : fetch net (Source.path "new" (some "07")) running ≡ (ok fetched, running)
unfolding program
fetch_v2 = refl

fetch-IsChecked_example : IsChecked net "07" fetched
fetch-IsChecked_example =
    fetch-IsChecked net "07" (Source.path "new" (some "07")) running running fetched refl fetch_v2

-- A checksum file with nothing in it counts as no checksum.
empty_checksum_is_unverified :
    check_expected net (net.first_token []) (7 ∷ [])
    ≡ ok (record { bytes = 7 ∷ []; digest = "07"; verified = false })
unfolding program
empty_checksum_is_unverified = refl
