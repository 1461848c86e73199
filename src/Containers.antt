-- ===== src/Containers.antt =====
-- internal/containers: the inventory of capsules and images, and the choice of the images to remove. The runner of
-- commands, the JSON decoder of labels, the reading of sizes, durations and times, and the sort are parameters.
pub mod Cleanup
pub mod Images
use krellin.Prelude.{ℕ, Bool, true, false, Option, none, some, List, [], ◌∷◌, ◌++◌, if◌then◌else◌}
use krellin.Prelude.Text.{Text, codes, is_empty, trim_space, split}
use krellin.Prelude.Result.{Result, ok, err}
use krellin.Prelude.Dict.{Dict, lookup}
use krellin.Capsule.Arguments.{docker}
use krellin.Capsule.Docker.{Answer, cut}

pub record CapsuleInfo : Type 0 where
  pub id : Text
  pub name : Text
  pub repo_id : Text
  pub labels : Dict Text
  pub size_bytes : ℕ

pub record ImageInfo : Type 0 where
  pub id : Text
  pub repository : Text
  pub tag : Text
  pub labels : Dict Text
  pub size_bytes : ℕ

-- `labels[key]`: a label that is not there is empty.
unfoldable pub label : Text → Dict Text → Text
label key labels = elim (lookup key labels) [ none ↦ [] | some v ↦ v ]

abbrev ps_words : List Text
ps_words =
    docker
    ∷ codes "ps"
    ∷ codes "-a"
    ∷ codes "--filter"
    ∷ codes "label=krellin.kind=capsule"
    ∷ codes "--format"
    ∷ codes "{{.ID}}|{{.Names}}"
    ∷ []

abbrev images_words : List Text
images_words =
    docker
    ∷ codes "images"
    ∷ codes "--filter"
    ∷ codes "label=krellin.kind"
    ∷ codes "--format"
    ∷ codes "{{.ID}}|{{.Repository}}|{{.Tag}}"
    ∷ []

abbrev inspect_words : Text → Text → List Text
inspect_words format id = docker ∷ codes "inspect" ∷ codes "-f" ∷ format ∷ id ∷ []

module _ {S : Type 0} (run : List Text → S → Answer × S) (decode : Text → Option (Dict Text))
    (size_of : Text → ℕ) where
  abbrev decoded : Answer × S → Result Text (Dict Text) × S
  decoded ((out, some e), s) = (err e.message, s)
  decoded ((out, none), s) = (
    elim (decode (trim_space out)) [
      | none ↦ err (codes "invalid labels output")
      | some labels ↦ ok labels
    ],
    s,
  )

  -- `inspectLabels` and `inspectImageLabels`
  unfoldable pub inspect_labels : Text → S → Result Text (Dict Text) × S
  inspect_labels id s = decoded (run (inspect_words (codes "{{json .Config.Labels}}") id) s)

  abbrev measured : Answer × S → ℕ × S
  measured ((out, some e), s) = (0, s)
  measured ((out, none), s) = (size_of (trim_space out), s)

  -- `inspectContainerSize` and `inspectImageSize`, whose errors are not looked at
  inspect_size : Text → Text → S → ℕ × S
  inspect_size format id s = measured (run (inspect_words format id) s)

  -- The size is asked for after the labels.
  abbrev sized :
      {A : Type 0}
      → Text
      → Text
      → (Dict Text → ℕ → A)
      → Result Text (Dict Text) × S
      → Result Text A × S
  sized format id item (err e, s) = (err e, s)
  sized format id item (ok labels, s) =
      let (size, after) = inspect_size format id s in (ok (item labels size), after)

  -- One line of `docker ps`
  abbrev capsule_of : Text × Option Text → S → Result Text CapsuleInfo × S
  capsule_of (id, none) s = (err (codes "invalid docker ps output"), s)
  capsule_of (id, some name) s =
      sized (codes "{{.SizeRw}}") id
        (λ labels size. record {
          id = id;
          name = name;
          repo_id = label (codes "krellin.repo_id") labels;
          labels = labels;
          size_bytes = size;
        })
        (inspect_labels id s)

  abbrev image_parts : Text → Text × Option Text → S → Result Text ImageInfo × S
  image_parts id (repository, none) s = (err (codes "invalid docker images output"), s)
  image_parts id (repository, some tag) s =
      sized (codes "{{.Size}}") id
        (λ labels size. record {
          id = id;
          repository = repository;
          tag = tag;
          labels = labels;
          size_bytes = size;
        })
        (inspect_labels id s)

  -- One line of `docker images`
  abbrev image_of : Text × Option Text → S → Result Text ImageInfo × S
  image_of (id, none) s = (err (codes "invalid docker images output"), s)
  image_of (id, some more) s = image_parts id (cut more) s

  -- The loop over the lines that are not blank, up to the first error.
  abbrev added : {A : Type 0} → A → Result Text (List A) × S → Result Text (List A) × S
  added item (err e, s) = (err e, s)
  added item (ok items, s) = (ok (item ∷ items), s)

  abbrev and_then :
      {A : Type 0} → (S → Result Text (List A) × S) → Result Text A × S → Result Text (List A) × S
  and_then rest (err e, s) = (err e, s)
  and_then rest (ok item, s) = added item (rest s)

  unfoldable pub each_line :
      {A : Type 0}
      → (Text × Option Text → S → Result Text A × S)
      → List Text
      → S
      → Result Text (List A) × S
  each_line item [] s = (ok [], s)
  each_line item (line ∷ lines) s =
      let rest = each_line item lines in
      if is_empty (trim_space line) then rest s else and_then rest (item (cut line) s)

  abbrev listed :
      {A : Type 0}
      → (Text × Option Text → S → Result Text A × S)
      → Answer × S
      → Result Text (List A) × S
  listed item ((out, some e), s) = (err e.message, s)
  listed item ((out, none), s) = each_line item (split 10 (trim_space out)) s

  -- `ListCapsules`
  unfoldable pub list_capsules : S → Result Text (List CapsuleInfo) × S
  unfolding inspect_size
  list_capsules s = listed capsule_of (run ps_words s)

  -- `ListImages`
  unfoldable pub list_images : S → Result Text (List ImageInfo) × S
  unfolding inspect_size
  list_images s = listed image_of (run images_words s)
