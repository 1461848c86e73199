-- ===== src/Config/Files/Updated.antt =====
-- What `UpdateImageDigest` of internal/config/update.go leaves in the configuration file.
use mathlib.Core.Path.{subst}
use krellin.Prelude.{◌≡◌, refl, sym, ◌⊎◌, inl, inr, true, Option, none, some, if_both}
use krellin.Prelude.Text.{Text}
use krellin.Prelude.Result.{Result, ok, err}
use krellin.Config.{Config, ConfigError, has_digest, validate, write}
use krellin.Config.Files.{
  contents, FileError, FileSystem, load, save, written, write_error, updated, update_image_digest,
}

write-cases :
    {S : Type 0} (files : FileSystem S) (c : Config)
    → (write files.unmarshal files.marshal c ≡ ok (files.marshal c))
      ⊎ ((e : ConfigError) × (write files.unmarshal files.marshal c ≡ err e))
unfolding write
write-cases files c =
    elim (validate c)
      as (λ v. (checked v ≡ ok (files.marshal c)) ⊎ ((e : ConfigError) × (checked v ≡ err e))) [
        | none ↦ inl refl
        | some e ↦ inr (e, refl)
      ]
  where
    checked : Option ConfigError → Result ConfigError Text
    checked v = elim v [ none ↦ ok (files.marshal c) | some e ↦ err e ]

module _ {S : Type 0} (files : FileSystem S) (path : Text) where
  -- The state is the one that a refused writing of the file left.
  abbrev pub WriteFailed : S → Type 0
  WriteFailed after = (data_ e : Text) × (s : S) × (files.write_file path data_ s ≡ (some e, after))

  -- The file holds the configuration that was read, with the image that was given in place of its own.
  abbrev pub Pinned : Text → S → S → Type 0
  Pinned digest s after =
      (c : Config) × (load files path s ≡ ok c)
      × (has_digest digest ≡ true)
      × (files.read_file path after ≡ contents (files.marshal (record c { image = digest })))

  abbrev pub Updated : Text → S → Option FileError × S → Type 0
  Updated digest s (some e, after) = (after ≡ s) ⊎ WriteFailed after
  Updated digest s (none, after) = Pinned digest s after

  -- A writing that ends with no error is read back.
  abbrev pub ReadsBack : Type 0
  ReadsBack =
      (data_ : Text) (s after : S)
      → files.write_file path data_ s ≡ (none, after)
      → files.read_file path after ≡ contents data_

  module _ (reads_back : ReadsBack) (digest : Text) (s : S) where
    module _ (c : Config) (read : load files path s ≡ ok c)
        (pinned : has_digest digest ≡ true) where
      wrote :
          (r : Option Text × S)
          → files.write_file path (files.marshal (record c { image = digest })) s ≡ r
          → Updated digest s (write_error files r)
      wrote (none, after) e = (c, read, pinned, reads_back _ s after e)
      wrote (some e', after) e = inr (files.marshal (record c { image = digest }), e', s, e)

      save-Updated : Updated digest s (save files path (record c { image = digest }) s)
      unfolding save
      save-Updated = elim (write-cases files (record c { image = digest })) [
        | inl e ↦ subst (λ r. Updated digest s (written files path r s)) (sym e) (wrote _ refl)
        | inr (error, e) ↦ subst (λ r. Updated digest s (written files path r s)) (sym e) (inl refl)
      ]

    reached :
        (r : Result FileError Config)
        → load files path s ≡ r
        → Updated digest s (updated files path digest r s)
    reached (err e) read = inl refl
    reached (ok c) read =
        if_both (Updated digest s) (has_digest digest) _ _ (λ e. save-Updated c read e)
          (λ e. inl refl)

    pub update_image_digest-Updated : Updated digest s (update_image_digest files path digest s)
    unfolding update_image_digest
    update_image_digest-Updated = reached (load files path s) refl
