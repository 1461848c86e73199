-- ===== src/Tests/Capsule.antt =====
-- The container of a repository on a docker that keeps whether its container runs.
use krellin.Prelude.{◌≡◌, refl, Bool, true, false, none, List, [], ◌∷◌, ◌++◌, drop, if◌then◌else◌}
use krellin.Prelude.Text.{Text, codes, text_eq, trim_space, has_prefix}
use krellin.Capsule.{Config, Handle}
use krellin.Capsule.Arguments.{container_name, build_create_args, verb, inspection}
use krellin.Capsule.Arguments.Confined.{Confines, read_line, build_create_args-Confines}
use krellin.Capsule.Docker.{Answer, cut, does, ensure}
use krellin.Capsule.Docker.Running.{Leaves, Reports, ensure-Runs}

abbrev cfg : Config
cfg = record {
  repo_id = codes "ab12";
  repo_root = codes "/home/u/repo";
  image_digest = codes "img@sha256:00";
  user = codes "dev";
  network_on = false;
  cpus = 2;
  memory_mb = 512;
  created_at = [];
}

build_create_args-Confines_example :
    Confines cfg
      (codes "krellin-ab12")
      (read_line (drop 2 (build_create_args cfg (codes "krellin-ab12"))))
build_create_args-Confines_example =
    build_create_args-Confines cfg (codes "krellin-ab12") (unfold has_prefix in refl)

-- The container runs once `start` was given, and is reported as it is.
step_of : List Text → Bool → Answer × Bool
step_of [] on = (([], none), on)
step_of (program ∷ []) on = (([], none), on)
step_of (program ∷ action ∷ words) on =
    if text_eq action (codes "start")
    then (([], none), true)
    else if text_eq action (codes "inspect")
    then ((if on then codes "true|img" else codes "false|img", none), on)
    else (([], none), on)

abbrev Runs : Text → Bool → Type 0
Runs name on = on ≡ true

starts :
    (name : Text) (on : Bool) → Leaves (Runs name) (does step_of (verb (codes "start") name) on)
unfolding step_of text_eq
starts name on = refl

reports : (name : Text) (on : Bool) → Reports (Runs name) (step_of (inspection name) on)
unfolding step_of text_eq cut trim_space
reports name true = λ h. refl
reports name false = λ h. cc

ensure-Runs_example : Leaves (Runs (codes "krellin-ab12")) (ensure step_of cfg false)
unfolding container_name
ensure-Runs_example = ensure-Runs step_of Runs starts reports cfg false

abbrev handle : Handle
handle = record {
  id = codes "krellin-ab12";
  repo_id = codes "ab12";
  repo_root = codes "/home/u/repo";
}

-- A docker that keeps the commands and lets every one succeed.
abbrev noting : List Text → List (List Text) → Answer × List (List Text)
noting words log = (([], none), log ++ words ∷ [])

abbrev image : Text
image = codes "img@sha256:00"
