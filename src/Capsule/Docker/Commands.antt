-- ===== src/Capsule/Docker/Commands.antt =====
-- The commands of `Reset` in internal/capsule/docker/docker.go, one after another.
use krellin.Prelude.{◌≡◌, ◌≢◌, ◌⊎◌, false, Option, none, List, [], ◌∷◌, ◌++◌, if◌then◌else◌}
use krellin.Prelude.Text.{Text, codes, is_empty, trim_prefix}
use krellin.Capsule.{Handle, Config}
use krellin.Capsule.Arguments.{build_create_args}
use krellin.Capsule.Docker.{Answer}

-- The commands that a reset is made of.
abbrev pub stop_words : Text → List Text
stop_words name = codes "docker" ∷ codes "stop" ∷ name ∷ []

abbrev pub remove_words : Text → List Text
remove_words name = codes "docker" ∷ codes "rm" ∷ codes "-f" ∷ name ∷ []

abbrev pull_words : Text → List Text
pull_words image = codes "docker" ∷ codes "pull" ∷ image ∷ []

-- A container with nothing set but the repository and the image.
abbrev pub bare : Handle → Text → Config
bare handle digest = record {
  repo_id =
      if is_empty handle.repo_id then trim_prefix handle.id (codes "krellin-") else handle.repo_id;
  repo_root = handle.repo_root;
  image_digest = digest;
  user = [];
  network_on = false;
  cpus = 0;
  memory_mb = 0;
  created_at = [];
}

abbrev pub create_words : Handle → Text → List Text
create_words handle digest = build_create_args (bare handle digest) handle.id

-- How a container is made: by one command; or, after it failed, by a second one, with the image pulled in between; a
-- pull that fails is the end, and an error.
abbrev pub Made : List Text → Text → Option Text → List (List Text) → Type 0
Made create image outcome more =
    (more ≡ create ∷ [])
    ⊎ (((more ≡ create ∷ pull_words image ∷ []) × (outcome ≢ none))
        ⊎ (more ≡ create ∷ pull_words image ∷ create ∷ []))

module _ {S : Type 0} (run : List Text → S → Answer × S) (log : S → List (List Text))
    (logs : (words : List Text) (s : S) → log (run words s).1 ≡ log s ++ words ∷ []) where
  module _ (cfg : Config) (create : List Text) (before : List (List Text)) where
    abbrev MadeSince : Option Text × S → Type 0
    MadeSince (outcome, s) =
        (more : List (List Text)) × (log s ≡ before ++ more)
        × Made create cfg.image_digest outcome more
