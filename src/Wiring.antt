-- ===== src/Wiring.antt =====
-- internal/app/wire.go: `BuildSession`, which puts a session together from the configuration of a repository. The disk,
-- the resolver of digests, the environment, the links of paths, the hash and the clock are parameters.
pub mod Complete
pub mod Safe
use krellin.Prelude.{
  ℕ, zero, suc, Bool, true, false, Option, none, some, List, [], ◌∷◌, ◌++◌, if◌then◌else◌, take,
}
use krellin.Prelude.Text.{Text, codes, text_eq}
use krellin.Prelude.Int.{ℤ, pos, negsuc}
use krellin.Prelude.Result.{Result, ok, err}
use krellin.FilePath.{join_path}
use krellin.Policy.{Policy, default_policy}
use krellin.Config.{Config}
use krellin.Config.Files.{FileSystem, FileRead, FileError, not_there, default_config, load, save}
use krellin.Repo.{Disk, RepoError, resolve_root, repo_id_of}
use krellin.Session.Start.{Setup}

abbrev pub default_image_tag : Text
default_image_tag = codes "ubuntu:latest"

pub data BuildError : Type 0 where
  no_repo : RepoError → BuildError
  no_config : FileError → BuildError
  no_digest : Text → BuildError

-- Where the daemon runs: the disk, the link that a path stands for, the hash in hexadecimal, the time as text, and the
-- home directory.
pub record Place : Type 0 where
  pub disk : Disk
  pub link : Text → Option Text
  pub hash : Text → Text
  pub clock : Text
  pub home : Text

-- What `Start` and freeze take from a session that was built.
pub record Built : Type 0 where
  pub setup : Setup
  pub policy : Policy
  pub config_path : Text
  pub publish_to : Text
  pub platforms : List Text

-- A limit of a configuration, which is never negative where it was read.
abbrev pub limit_of : ℤ → ℕ
limit_of (pos n) = n
limit_of (negsuc n) = zero

abbrev named_by : Text → Result RepoError Text → Text
named_by clock (err e) = clock
named_by clock (ok id) = take 12 id

-- The policy of a session.
unfoldable pub policy_of : Text → Text → Config → Policy
unfolding default_policy
policy_of root home c = record (default_policy root home) {
  network = c.network;
  resources = record { cpus = limit_of c.cpus; memory_mb = limit_of c.memory_mb };
}

-- The session of a root with its configuration.
unfoldable pub session_of : Text → Text → Text → Text → Config → Built
unfolding policy_of
session_of root home name path c = record {
  setup = record {
    capsule_name = codes "krellin-" ++ name;
    repo_root = root;
    image_digest = c.image;
    capsule_user = c.user;
    network_on = text_eq c.network (codes "on");
    cpus = limit_of c.cpus;
    memory_mb = limit_of c.memory_mb;
  };
  policy = policy_of root home c;
  config_path = path;
  publish_to = c.publish;
  platforms = c.platforms;
}

module _ {S : Type 0} (files : FileSystem S)
    (resolve_digest : Text → S → Result Text Text × S) where
  abbrev pub Configured : Type 0
  Configured = Result BuildError Config × S

  abbrev pub kept : Config → Option FileError × S → Configured
  kept c (none, s) = (ok c, s)
  kept c (some e, s) = (err (no_config e), s)

  abbrev pub initialised : Text → Result Text Text × S → Configured
  initialised path (err e, s) = (err (no_digest e), s)
  initialised path (ok digest, s) =
      kept (default_config digest) (save files path (default_config digest) s)

  -- A configuration that is not there is made, pinned to the digest of the default image.
  abbrev pub or_initialised : Text → S → Result FileError Config → Configured
  or_initialised path s (ok c) = (ok c, s)
  or_initialised path s (err not_there) = initialised path (resolve_digest default_image_tag s)
  or_initialised path s (err e) = (err (no_config e), s)

  unfoldable pub configure : Text → S → Configured
  unfolding load save
  configure path s = or_initialised path s (load files path s)

  abbrev pub session_with : Text → Text → Text → Text → Configured → Result BuildError Built × S
  session_with root home name path (err e, s) = (err e, s)
  session_with root home name path (ok c, s) = (ok (session_of root home name path c), s)

  module _ (place : Place) where
    abbrev pub config_path_of : Text → Text
    config_path_of root = join_path root (codes ".krellinrc")

    abbrev pub name_of : Text → Text
    name_of root = named_by place.clock (repo_id_of place.disk place.link place.hash root)

    abbrev pub at_root : Result RepoError Text → S → Result BuildError Built × S
    at_root (err e) s = (err (no_repo e), s)
    at_root (ok root) s =
        session_with root place.home (name_of root) (config_path_of root)
          (configure (config_path_of root) s)

    -- `BuildSession`
    unfoldable pub build_session : Text → S → Result BuildError Built × S
    unfolding configure session_of resolve_root repo_id_of join_path
    build_session start s = at_root (resolve_root place.disk start) s
