-- ===== src/Containers/Cleanup.antt =====
-- internal/containers/cleanup.go
pub mod Chosen
use krellin.Prelude.{
  ℕ, zero, suc, ◌+◌, ◌-◌, Bool, true, false, not, Option, none, some, List, [], ◌∷◌, ltb, leb, ◌==◌,
  if◌then◌else◌, length, drop,
}
use krellin.Prelude.Int.{ℤ, pos, negsuc, pos_part, neg_part}
use krellin.Prelude.Text.{Text, codes, text_eq, is_empty}
use krellin.Prelude.Result.{Result, ok, err}
use krellin.Prelude.Dict.{Dict}
use krellin.Capsule.Arguments.{docker}
use krellin.Capsule.Docker.{Answer, does}
use krellin.Containers.{ImageInfo, label, list_images}

pub record CleanupPolicy : Type 0 where
  pub keep_last_n : ℤ
  pub delete_older_than : Text
  pub delete_unpinned : Bool

abbrev pub pinned : ImageInfo → Bool
pinned image = text_eq (label (codes "krellin.pinned") image.labels) (codes "true")

abbrev pub created_at : ImageInfo → Text
created_at image = label (codes "krellin.created_at") image.labels

unpinned : List ImageInfo → List ImageInfo
unpinned [] = []
unpinned (image ∷ images) =
    let rest = unpinned images in if not (pinned image) then image ∷ rest else rest

-- `filterUnpinned`
unfoldable pub filter_unpinned : List ImageInfo → Bool → List ImageInfo
unfolding unpinned
filter_unpinned images only_unpinned = if not only_unpinned then images else unpinned images

-- The reading of a time and of a duration, in nanoseconds, the clock, and the sort, newest first.
pub record Times : Type 0 where
  pub parse_time : Text → Option ℕ
  pub parse_duration : Text → Result Text ℤ
  pub now : ℕ
  pub sort_newest : List ImageInfo → List ImageInfo

module _ (times : Times) where
  abbrev pub is_before : Option ℕ → ℕ → Bool
  is_before none cutoff = false
  is_before (some time) cutoff = ltb time cutoff

  -- `filterOlderThan`; an image whose time cannot be read is left out.
  unfoldable pub filter_older_than : List ImageInfo → ℕ → List ImageInfo
  filter_older_than [] cutoff = []
  filter_older_than (image ∷ images) cutoff =
      let rest = filter_older_than images cutoff in
      if is_before (times.parse_time (created_at image)) cutoff then image ∷ rest else rest

  -- `dropNewest`
  unfoldable pub drop_newest : List ImageInfo → ℕ → List ImageInfo
  drop_newest images keep =
      let sorted = times.sort_newest images in
      if leb (length sorted) keep then [] else drop keep sorted

  abbrev aged : Result Text ℤ → List ImageInfo → Result Text (List ImageInfo)
  aged (err e) images = err e
  aged (ok duration) images =
      ok (filter_older_than images (times.now + neg_part duration - pos_part duration))

  abbrev pub older : Text → List ImageInfo → Result Text (List ImageInfo)
  older text images = if is_empty text then ok images else aged (times.parse_duration text) images

  abbrev but_newest : ℕ → Result Text (List ImageInfo) → Result Text (List ImageInfo)
  but_newest keep (err e) = err e
  but_newest keep (ok images) = ok (if ltb 0 keep then drop_newest images keep else images)

  -- The images that `Cleanup` removes, of those that are listed.
  unfoldable pub candidates : CleanupPolicy → ℕ → List ImageInfo → Result Text (List ImageInfo)
  candidates policy keep images =
      but_newest keep
        (older policy.delete_older_than (filter_unpinned images policy.delete_unpinned))

  module _ {S : Type 0} (run : List Text → S → Answer × S) (decode : Text → Option (Dict Text))
      (size_of : Text → ℕ) where
    abbrev continued : (S → Option Text × S) → Option Text × S → Option Text × S
    continued rest (some e, s) = (some e, s)
    continued rest (none, s) = rest s

    -- The loop of `docker rmi`, up to the first error
    unfoldable remove_images : List ImageInfo → S → Option Text × S
    remove_images [] s = (none, s)
    remove_images (image ∷ images) s =
        continued (remove_images images) (does run (docker ∷ codes "rmi" ∷ image.id ∷ []) s)

    abbrev removed : Result Text (List ImageInfo) → S → Option Text × S
    removed (err e) s = (some e, s)
    removed (ok images) s = remove_images images s

    abbrev cleaned : CleanupPolicy → ℕ → Result Text (List ImageInfo) × S → Option Text × S
    cleaned policy keep (err e, s) = (some e, s)
    cleaned policy keep (ok images, s) = removed (candidates policy keep images) s

    -- `Cleanup`
    unfoldable cleanup : CleanupPolicy → S → Option Text × S
    cleanup policy s = elim policy.keep_last_n [
      | negsuc n ↦ (some (codes "keep last n must be non-negative"), s)
      | pos keep ↦ cleaned policy keep (list_images run decode size_of s)
    ]
