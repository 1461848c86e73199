-- ===== src/Capsule/Status.antt =====
-- `Status` of internal/capsule/docker/docker.go. The JSON decoder of labels is a parameter.
use krellin.Prelude.{Bool, Option, none, some, List, [], ◌∷◌, if◌then◌else◌}
use krellin.Prelude.Text.{Text, codes, text_eq, is_empty, trim_space}
use krellin.Prelude.Dict.{Dict}
use krellin.Prelude.Result.{Result, ok, err}
use krellin.Capsule.{Handle}
use krellin.Capsule.Arguments.{docker}
use krellin.Capsule.Docker.{Answer, cut}

pub record Status : Type 0 where
  pub running : Bool
  pub image : Text
  pub labels : Dict Text

abbrev status_words : Handle → List Text
status_words handle =
    docker
    ∷ codes "inspect"
    ∷ codes "-f"
    ∷ codes "{{.State.Running}}|{{.Config.Image}}|{{json .Config.Labels}}"
    ∷ handle.id
    ∷ []

module _ {S : Type 0} (run : List Text → S → Answer × S) (decode : Text → Option (Dict Text)) where
  abbrev with_labels : Text → Text → Option (Dict Text) → Result Text Status
  with_labels running image none = err (codes "invalid labels output")
  with_labels running image (some labels) =
      ok (record { running = text_eq running (codes "true"); image = image; labels = labels })

  abbrev with_image : Text → Text × Option Text → Result Text Status
  with_image running (image, none) = with_labels running image (some [])
  with_image running (image, some labels) =
      with_labels running image (if is_empty (trim_space labels) then some [] else decode labels)

  abbrev in_parts : Text × Option Text → Result Text Status
  in_parts (out, none) = err (codes "unexpected inspect output")
  in_parts (running, some rest) = with_image running (cut rest)

  abbrev inspected : Answer × S → Result Text Status × S
  inspected ((out, some e), s) = (err e.message, s)
  inspected ((out, none), s) = (in_parts (cut (trim_space out)), s)

  -- `Status`
  unfoldable status : Handle → S → Result Text Status × S
  unfolding cut
  status handle s = inspected (run (status_words handle) s)
