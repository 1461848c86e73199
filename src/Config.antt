-- ===== src/Config.antt =====
-- internal/config/config.go: the configuration of a repository, after the TOML library has read it.
pub mod Digest
pub mod Defaults
pub mod Files
use krellin.Prelude.{
  ℕ, Bool, true, false, not, ◌&&◌, ◌||◌, Option, none, some, List, [], ◌∷◌, leb, ◌==◌,
  if◌then◌else◌, length,
}
use krellin.Prelude.Text.{Text, codes, text_eq, is_empty, has_prefix, trim_space, split}
use krellin.Prelude.Int.{ℤ, pos, negsuc, is_zero}
use krellin.Prelude.Result.{Result, ok, err}

pub record Config : Type 0 where
  pub version : ℤ
  pub image : Text
  pub name : Text
  pub user : Text
  pub network : Text
  pub cpus : ℤ
  pub memory_mb : ℤ
  pub publish : Text
  pub platforms : List Text
  pub mode : Text

pub data ConfigError : Type 0 where
  not_toml unsupported_version image_required image_unpinned invalid_network : ConfigError
  negative_resources blank_user invalid_mode : ConfigError

abbrev pub digest_mark : Text
digest_mark = codes "@sha256:"

-- What follows the `@` of the first mark: `image[idx+1:]`.
unfoldable pub after_at : Text → Option Text
after_at [] = none
after_at (c ∷ s) = elim (has_prefix (c ∷ s) digest_mark) [ true ↦ some s | false ↦ after_at s ]

abbrev is_hex : ℕ → Bool
is_hex c = (leb 48 c && leb c 57) || ((leb 97 c && leb c 102) || (leb 65 c && leb c 70))

unfoldable pub all_hex : Text → Bool
all_hex [] = true
all_hex (c ∷ s) = is_hex c && all_hex s

abbrev is_digest : List Text → Bool
is_digest (algorithm ∷ digest ∷ []) = length digest == 64 && all_hex digest
is_digest _ = false

abbrev digest_after : Option Text → Bool
digest_after none = false
digest_after (some rest) = is_digest (split 58 rest)

-- `HasDigest`
unfoldable pub has_digest : Text → Bool
has_digest image = digest_after (after_at image)

abbrev is_negative : ℤ → Bool
is_negative (pos n) = false
is_negative (negsuc n) = true

abbrev is_one : ℤ → Bool
is_one (pos n) = n == 1
is_one (negsuc n) = false

-- `Validate`; `none` is the result nil.
unfoldable pub validate : Config → Option ConfigError
validate c =
    if not (is_one c.version)
    then some unsupported_version
    else if is_empty c.image
    then some image_required
    else if not (has_digest c.image)
    then some image_unpinned
    else if not (is_empty c.network)
        && (not (text_eq c.network (codes "on")) && not (text_eq c.network (codes "off")))
    then some invalid_network
    else if is_negative c.cpus || is_negative c.memory_mb
    then some negative_resources
    else if not (is_empty c.user) && is_empty (trim_space c.user)
    then some blank_user
    else if not (is_empty c.mode)
        && (not (text_eq c.mode (codes "clean")) && not (text_eq c.mode (codes "as-is")))
    then some invalid_mode
    else none

-- `applyDefaults`
unfoldable pub apply_defaults : Config → Config
apply_defaults c = record c {
  network = if is_empty c.network then codes "on" else c.network;
  cpus = if is_zero c.cpus then pos 2 else c.cpus;
  memory_mb = if is_zero c.memory_mb then pos 4096 else c.memory_mb;
  mode = if is_empty c.mode then codes "clean" else c.mode;
}

abbrev checked : Config → Result ConfigError Config
checked c = elim (validate c) [ none ↦ ok c | some e ↦ err e ]

abbrev read_config : Option Config → Result ConfigError Config
read_config none = err not_toml
read_config (some c) = checked (apply_defaults c)

-- The TOML library as a parameter
module _ (unmarshal : Text → Option Config) (marshal : Config → Text) where
  -- `Parse`
  unfoldable pub parse : Text → Result ConfigError Config
  parse data_ = read_config (unmarshal data_)

  -- The bytes that `Write` writes.
  unfoldable pub write : Config → Result ConfigError Text
  write c = elim (validate c) [ none ↦ ok (marshal c) | some e ↦ err e ]
