-- ===== src/Tests/Wiring.antt =====
-- A session for a file of a repository without a configuration.
use mathlib.Core.Path.{subst}
use krellin.Prelude.{
  ◌≡◌, refl, ap, true, false, Option, none, some, [], ◌++◌, if◌then◌else◌, replicate,
}
use krellin.Prelude.Text.{Text, codes, text_eq, is_empty, has_prefix, split, trim_space}
use krellin.Prelude.Result.{Result, ok}
use krellin.FilePath.{clean, join_path, is_rooted, parts_of, render}
use krellin.FilePath.Dir.{dir_of}
use krellin.Config.{Config, has_digest, after_at, all_hex, validate, write}
use krellin.Config.Files.{FileSystem, FileRead, missing, default_config, load, save}
use krellin.Repo.{Disk, abs_path, has_git, find_from, find_root, resolve_root, found_or, repo_id_of}
use krellin.Repo.Nearest.{Nearest}
use krellin.Repo.Resolved.{names_at, resolve_root-Nearest}
use krellin.Wiring.{Place, Built, session_of, configure, build_session}
use krellin.Wiring.Safe.{Rooted, Contained, build_session-Safe}

abbrev start : Text
start = codes "/repo/src/a.go"

abbrev disk : Disk
disk = record {
  working_dir = some (codes "/home/ann");
  is_dir = λ p.
      if text_eq p start
      then some false
      else if text_eq p (codes "/repo/.git")
      then some true
      else none;
}

start-rooted : is_rooted start ≡ true
unfolding is_rooted has_prefix
start-rooted = refl

start-there : disk.is_dir (clean start) ≡ some false
unfolding clean is_rooted has_prefix parts_of render text_eq
start-there = refl

finds : resolve_root disk start ≡ ok (codes "/repo")
unfolding resolve_root find_root abs_path find_from has_git dir_of join_path clean is_rooted
    has_prefix parts_of render text_eq is_empty
finds = refl

resolve_root-Nearest_example :
    (o : Option Text) × (resolve_root disk start ≡ found_or (some o))
    × Nearest disk (names_at false (parts_of true start)) o
resolve_root-Nearest_example = resolve_root-Nearest disk start false start-rooted start-there

abbrev image : Text
image = codes "ubuntu@sha256:" ++ replicate 64 97

abbrev unmarshal : Text → Option Config
unmarshal t = none

abbrev marshal : Config → Text
marshal c = c.image

-- The world is the text of the configuration, which is written and never found.
abbrev read_file : Text → Text → FileRead
read_file path s = missing

abbrev write_file : Text → Text → Text → Option Text × Text
write_file path t s = (none, t)

abbrev resolver : Text → Text → Result Text Text × Text
resolver tag s = (ok image, s)

abbrev link : Text → Option Text
link p = some p

abbrev hash : Text → Text
hash p = codes "0123456789abcdef"

abbrev files : FileSystem Text
files = record {
  unmarshal = unmarshal;
  marshal = marshal;
  read_file = read_file;
  write_file = write_file;
}

abbrev place : Place
place = record {
  disk = disk;
  link = link;
  hash = hash;
  clock = codes "17";
  home = codes "/home/ann";
}

abbrev built : Built
built =
    session_of (codes "/repo") (codes "/home/ann") (codes "0123456789ab") (codes "/repo/.krellinrc")
      (default_config image)

builds : build_session files resolver place start [] ≡ (ok built, image)
unfolding build_session configure load save write validate has_digest after_at all_hex split
    session_of default_config resolve_root repo_id_of find_root abs_path find_from has_git dir_of
    join_path clean is_rooted has_prefix parts_of render text_eq is_empty trim_space
builds = refl

working_dir-Rooted : Rooted disk
unfolding is_rooted has_prefix
working_dir-Rooted dir e =
    let same : codes "/home/ann" ≡ dir = cc in subst (λ d. is_rooted d ≡ true) same refl

build_session-Safe_example :
    (root : Text) × (resolve_root disk start ≡ ok root)
    × (is_rooted root ≡ true)
    × Contained root (codes "/home/ann") built
build_session-Safe_example =
    build_session-Safe files resolver place start [] built working_dir-Rooted (ap (λ r. r.0) builds)
