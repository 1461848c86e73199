-- ===== src/Containers/Images.antt =====
-- internal/images: the digest of an image, and its publication. The runner of commands is a parameter.
use krellin.Prelude.{none, some, List, [], ◌∷◌, ◌++◌, if◌then◌else◌}
use krellin.Prelude.Text.{Text, codes, is_empty, trim_space, join}
use krellin.Prelude.Result.{Result, ok, err}
use krellin.Capsule.Arguments.{docker}
use krellin.Capsule.Docker.{Answer}

abbrev inspect_words : Text → List Text
inspect_words image =
    docker ∷ codes "inspect" ∷ codes "-f" ∷ codes "{{index .RepoDigests 0}}" ∷ image ∷ []

abbrev pull_words : Text → List Text
pull_words image = docker ∷ codes "pull" ∷ image ∷ []

abbrev digest_in : Text → Result Text Text
digest_in out =
    if is_empty (trim_space out) then err (codes "empty digest") else ok (trim_space out)

module _ {S : Type 0} (run : List Text → S → Answer × S) where
  abbrev inspected : Answer × S → Result Text Text × S
  inspected ((out, some e), s) = (err e.message, s)
  inspected ((out, none), s) = (digest_in out, s)

  -- After a pull that fails the error is the one of the inspection.
  abbrev after_pull : Text → Text → Answer × S → Result Text Text × S
  after_pull image e ((out, some f), s) = (err e, s)
  after_pull image e ((out, none), s) = inspected (run (inspect_words image) s)

  abbrev or_pulled : Text → Answer × S → Result Text Text × S
  or_pulled image ((out, some e), s) = after_pull image e.message (run (pull_words image) s)
  or_pulled image ((out, none), s) = (digest_in out, s)

  -- `ResolveDigest`
  unfoldable pub resolve_digest : Text → S → Result Text Text × S
  resolve_digest image s = or_pulled image (run (inspect_words image) s)

  abbrev platform_words : List Text → List Text
  platform_words [] = []
  platform_words (p ∷ ps) = codes "--platform" ∷ join 44 (p ∷ ps) ∷ []

  abbrev pushed : Text → Answer × S → Result Text Text × S
  pushed target ((out, some e), s) = (err e.message, s)
  pushed target ((out, none), s) = (ok target, s)

  abbrev tagged : Text → List Text → Answer × S → Result Text Text × S
  tagged target platforms ((out, some e), s) = (err e.message, s)
  tagged target platforms ((out, none), s) =
      pushed target (run (docker ∷ codes "push" ∷ (platform_words platforms ++ target ∷ [])) s)

  -- `Push`
  unfoldable pub push : Text → Text → List Text → S → Result Text Text × S
  unfolding join
  push image target platforms s =
      if is_empty target
      then (err (codes "publish target required"), s)
      else tagged target platforms (run (docker ∷ codes "tag" ∷ image ∷ target ∷ []) s)
