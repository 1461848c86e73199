-- ===== src/Tests/Config.antt =====
-- A configuration with defaults.
use krellin.Prelude.{◌≡◌, refl, true, Option, some, [], ◌∷◌, ◌++◌, replicate}
use krellin.Prelude.Text.{Text, codes, text_eq, is_empty, has_prefix, split}
use krellin.Prelude.Int.{pos}
use krellin.Prelude.Result.{ok}
use krellin.Config.{Config, after_at, all_hex, has_digest, validate, apply_defaults, parse}

abbrev image : Text
image = codes "repo/app@sha256:" ++ replicate 64 97

image-pinned : has_digest image ≡ true
unfolding has_digest after_at has_prefix split all_hex
image-pinned = refl

abbrev config : Config
config = record {
  version = pos 1;
  image = image;
  name = [];
  user = [];
  network = codes "off";
  cpus = pos 2;
  memory_mb = pos 4096;
  publish = [];
  platforms = [];
  mode = codes "clean";
}

-- A file without a processor count.
abbrev unmarshal : Text → Option Config
unmarshal [] = some (record config { cpus = pos 0 })
unmarshal (c ∷ text) = some config

abbrev marshal : Config → Text
marshal c = codes "version = 1"

parses : parse unmarshal marshal [] ≡ ok config
unfolding parse validate apply_defaults has_digest after_at has_prefix split all_hex text_eq
    is_empty
parses = refl
