-- ===== src/Containers/Cleanup/Chosen.antt =====
-- Which images internal/containers/cleanup.go removes.
use krellin.Prelude.{ℕ, zero, suc, ◌+◌, ◌-◌, ◌≡◌, true, false, List, length, take, drop, In}
use krellin.Prelude.Int.{ℤ, pos_part, neg_part}
use krellin.Prelude.Text.{Text, is_empty}
use krellin.Prelude.Result.{Result, ok, err}
use krellin.Containers.{ImageInfo}
use krellin.Containers.Cleanup.{created_at, Times, is_before}

-- The documented behaviour of the sort: the same images, none before a newer one. `NotNewer a b` is the order.
pub record Sorts (times : Times) (NotNewer : ImageInfo → ImageInfo → Type 0) : Type 0 where
  pub members :
      (a : ImageInfo) (images : List ImageInfo) → In a (times.sort_newest images) → In a images
  pub count : (images : List ImageInfo) → length (times.sort_newest images) ≡ length images
  pub ordered :
      (images : List ImageInfo) (n : ℕ) (a b : ImageInfo)
      → In a (take n (times.sort_newest images))
      → In b (drop n (times.sort_newest images))
      → NotNewer b a

module _ (times : Times) where
  -- The image was made before the cutoff.
  abbrev IsOlder : ℕ → ImageInfo → Type 0
  IsOlder cutoff image = is_before times (times.parse_time (created_at image)) cutoff ≡ true

  -- What an age limit asks of an image: its time is before the clock less the duration.
  abbrev pub WithinLimit : Text → ImageInfo → Type 0
  WithinLimit limit a =
      is_empty limit ≡ false
      → (d : ℤ) × (times.parse_duration limit ≡ ok d)
        × IsOlder (times.now + neg_part d - pos_part d) a

  -- All of a list that is given are so.
  abbrev pub Each : (ImageInfo → Type 0) → Result Text (List ImageInfo) → Type 0
  Each P (err e) = Unit
  Each P (ok images) = (a : ImageInfo) → In a images → P a

  module _ (NotNewer : ImageInfo → ImageInfo → Type 0) (sorts : Sorts times NotNewer) where
    -- What is removed of the images that are left to choose from, in a list: all of them where none is to be kept, and
    -- otherwise all but as many as are to be kept, of which none is older than one that is removed.
    abbrev pub Spares : ℕ → List ImageInfo → List ImageInfo → Type 0
    Spares zero chosen removed = removed ≡ chosen
    Spares (suc k) chosen removed =
        (length removed ≡ length chosen - suc k)
        × (kept : List ImageInfo) × ((length kept ≡ length chosen - length removed)
            × ((a : ImageInfo) → In a kept → In a chosen)
            × ((a b : ImageInfo) → In a kept → In b removed → NotNewer b a))

    abbrev pub SparesOf : ℕ → Result Text (List ImageInfo) → Result Text (List ImageInfo) → Type 0
    SparesOf keep (err e) r = r ≡ err e
    SparesOf keep (ok chosen) (err e) = ⊥
    SparesOf keep (ok chosen) (ok removed) = Spares keep chosen removed
