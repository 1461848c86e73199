-- ===== src/Config/Files.antt =====
-- The configuration file: `Load` and `Write` of internal/config/config.go, defaults.go and update.go. The reading and
-- the writing of a file are parameters.
pub mod Updated
use krellin.Prelude.{Option, none, some, [], if◌then◌else◌}
use krellin.Prelude.Text.{Text, codes}
use krellin.Prelude.Int.{pos}
use krellin.Prelude.Result.{Result, ok, err}
use krellin.Config.{Config, ConfigError, has_digest, parse, write}

-- What a file is when it is read: its contents, or it is not there, or there is another error.
pub data FileRead : Type 0 where
  contents : Text → FileRead
  missing : FileRead
  broken : Text → FileRead

pub data FileError : Type 0 where
  not_there unpinned : FileError
  failed : Text → FileError
  invalid : ConfigError → FileError

-- `DefaultConfig`
unfoldable pub default_config : Text → Config
default_config digest = record {
  version = pos 1;
  image = digest;
  name = [];
  user = codes "root";
  network = codes "on";
  cpus = pos 2;
  memory_mb = pos 4096;
  publish = [];
  platforms = [];
  mode = codes "clean";
}

abbrev pub parsed : Result ConfigError Config → Result FileError Config
parsed (err e) = err (invalid e)
parsed (ok c) = ok c

-- The TOML library and the files.
pub record FileSystem (S : Type 0) : Type 0 where
  pub unmarshal : Text → Option Config
  pub marshal : Config → Text
  pub read_file : Text → S → FileRead
  pub write_file : Text → Text → S → Option Text × S

module _ {S : Type 0} (files : FileSystem S) where
  abbrev pub loaded : FileRead → Result FileError Config
  loaded (contents data_) = parsed (parse files.unmarshal files.marshal data_)
  loaded missing = err not_there
  loaded (broken e) = err (failed e)

  -- `Load`
  unfoldable pub load : Text → S → Result FileError Config
  load path s = loaded (files.read_file path s)

  abbrev write_error : Option Text × S → Option FileError × S
  write_error (none, s) = (none, s)
  write_error (some e, s) = (some (failed e), s)

  abbrev pub written : Text → Result ConfigError Text → S → Option FileError × S
  written path (err e) s = (some (invalid e), s)
  written path (ok data_) s = write_error (files.write_file path data_ s)

  -- `Write`
  unfoldable pub save : Text → Config → S → Option FileError × S
  save path c s = written path (write files.unmarshal files.marshal c) s

  abbrev updated : Text → Text → Result FileError Config → S → Option FileError × S
  updated path digest (err e) s = (some e, s)
  updated path digest (ok c) s =
      if has_digest digest then save path (record c { image = digest }) s else (some unpinned, s)

  -- `UpdateImageDigest`
  unfoldable pub update_image_digest : Text → Text → S → Option FileError × S
  unfolding load save
  update_image_digest path digest s = updated path digest (load path s) s
