-- ===== src/Wiring/Complete.antt =====
-- The configuration that a session is built with, read or made, is complete.
use mathlib.Core.Path.{subst}
use krellin.Prelude.{◌≡◌, ◌≢◌, refl, sym, ap, ◌∙◌, Option, none, some, inl, inr, Option-cases}
use krellin.Prelude.Text.{Text, is_empty}
use krellin.Prelude.Result.{Result, ok, err}
use krellin.Config.{Config, ConfigError, validate, apply_defaults, parse, write}
use krellin.Config.Defaults.{Complete, validate-Complete, parse-Complete}
use krellin.Config.Files.{
  FileSystem, FileRead, contents, missing, broken, FileError, not_there, unpinned, failed, invalid,
  default_config, parsed, loaded, load, written, save,
}
use krellin.Wiring.{default_image_tag, kept, initialised, or_initialised, configure, Configured}

default_config-Complete :
    (digest : Text) → validate (default_config digest) ≡ none → Complete (default_config digest)
unfolding default_config apply_defaults is_empty
default_config-Complete digest h = validate-Complete (default_config digest) h

module _ {S : Type 0} (files : FileSystem S)
    (resolve_digest : Text → S → Result Text Text × S) where
  write-refused :
      (c : Config) (x : ConfigError)
      → validate c ≡ some x
      → write files.unmarshal files.marshal c ≡ err x
  unfolding write
  write-refused c x e = rw (write, e) refl

  refused : (path : Text) (x : ConfigError) (s : S) → (written files path (err x) s).0 ≢ none
  refused path x s h = cc

  save-validate :
      (path : Text) (c : Config) (s : S) → (save files path c s).0 ≡ none → validate c ≡ none
  unfolding save
  save-validate path c s h = elim (Option-cases (validate c)) [
    | inl e ↦ e
    | inr (x, e) ↦
        let is = ap (λ r. (written files path r s).0) (write-refused c x e) in
        absurd (refused path x s (sym is ∙ h))
  ]

  -- What holds of a configuration that a session is built with.
  abbrev pub Sound : Configured files resolve_digest → Type 0
  Sound r = (c : Config) → r.0 ≡ ok c → Complete c

  kept-Sound :
      (c : Config) (r : Option FileError × S)
      → (r.0 ≡ none → Complete c)
      → Sound (kept files resolve_digest c r)
  kept-Sound c (none, s) h d e = let same : c ≡ d = cc in subst Complete same (h refl)
  kept-Sound c (some x, s) h d e = cc

  initialised-Sound :
      (path : Text) (r : Result Text Text × S) → Sound (initialised files resolve_digest path r)
  initialised-Sound path (err x, s) c e = cc
  initialised-Sound path (ok digest, s) c e =
      kept-Sound (default_config digest) (save files path (default_config digest) s)
        (λ h. default_config-Complete digest (save-validate path (default_config digest) s h)) c e

  parsed-ok : (r : Result ConfigError Config) (c : Config) → parsed r ≡ ok c → r ≡ ok c
  parsed-ok (ok d) c h = cc
  parsed-ok (err x) c h = cc

  load-Complete : (path : Text) (s : S) (c : Config) → load files path s ≡ ok c → Complete c
  unfolding load
  load-Complete path s c h = from (files.read_file path s) h
    where
      from : (r : FileRead) → loaded files r ≡ ok c → Complete c
      from (contents data_) h =
          parse-Complete files.unmarshal files.marshal data_ c
            (parsed-ok (parse files.unmarshal files.marshal data_) c h)
      from missing h = cc
      from (broken x) h = cc

  or_initialised-Sound :
      (path : Text) (s : S) (r : Result FileError Config)
      → ((c : Config) → r ≡ ok c → Complete c)
      → Sound (or_initialised files resolve_digest path s r)
  or_initialised-Sound path s (ok d) h c e = h c cc
  or_initialised-Sound path s (err not_there) h c e =
      initialised-Sound path (resolve_digest default_image_tag s) c e
  or_initialised-Sound path s (err unpinned) h c e = cc
  or_initialised-Sound path s (err (failed x)) h c e = cc
  or_initialised-Sound path s (err (invalid x)) h c e = cc

  pub configure-Sound : (path : Text) (s : S) → Sound (configure files resolve_digest path s)
  unfolding configure
  configure-Sound path s = or_initialised-Sound path s (load files path s) (load-Complete path s)
