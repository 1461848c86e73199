-- ===== src/Capsule/Arguments.antt =====
-- internal/capsule/docker/docker.go: the words of the commands.
pub mod Confined
use krellin.Prelude.{Bool, true, false, not, List, [], ◌∷◌, ◌++◌, ltb, if◌then◌else◌}
use krellin.Prelude.Text.{Text, codes, text_eq, is_empty, trim_space}
use krellin.Prelude.Dict.{Dict}
use krellin.Tools.Output.{itoa}
use krellin.Capsule.{Handle, Config}

-- `containerName`
unfoldable pub container_name : Text → Text
container_name repo_id = codes "krellin-" ++ repo_id

abbrev pub docker : Text
docker = codes "docker"

abbrev pub when : Bool → List Text → List Text
when true words = words
when false words = []

-- The words that are appended one after another.
abbrev pub appended {ℓ} : {A : Type ℓ} → List (List A) → List A
appended [] = []
appended (words ∷ more) = words ++ appended more

-- `buildCreateArgs`
unfoldable pub build_create_args : Config → Text → List Text
build_create_args cfg name =
    docker
    ∷ codes "create"
    ∷ codes "--name"
    ∷ name
    ∷ appended (
        when (not (text_eq (trim_space cfg.user) (codes "root")))
          (codes "--cap-drop=ALL" ∷ codes "--security-opt" ∷ codes "no-new-privileges" ∷ [])
        ∷ (codes "-w" ∷ codes "/workspace" ∷ [])
        ∷ (codes "-e" ∷ codes "HOME=/home/dev" ∷ [])
        ∷ (codes "--label" ∷ (codes "krellin.repo_id=" ++ cfg.repo_id) ∷ [])
        ∷ (codes "--label" ∷ (codes "krellin.repo_root=" ++ cfg.repo_root) ∷ [])
        ∷ (codes "--label" ∷ codes "krellin.kind=capsule" ∷ [])
        ∷ when (not (is_empty (trim_space cfg.user))) (codes "--user" ∷ cfg.user ∷ [])
        ∷ when (not (is_empty cfg.created_at))
            (codes "--label" ∷ (codes "krellin.created_at=" ++ cfg.created_at) ∷ [])
        ∷ (codes "-v" ∷ (codes "krellin-" ++ (cfg.repo_id ++ codes "-home:/home/dev")) ∷ [])
        ∷ (codes "-v" ∷ (codes "krellin-" ++ (cfg.repo_id ++ codes "-env:/env")) ∷ [])
        ∷ (codes "-v" ∷ (cfg.repo_root ++ codes ":/workspace") ∷ [])
        ∷ when (not cfg.network_on) (codes "--network" ∷ codes "none" ∷ [])
        ∷ when (ltb 0 cfg.cpus) (codes "--cpus" ∷ itoa cfg.cpus ∷ [])
        ∷ when (ltb 0 cfg.memory_mb) (codes "--memory" ∷ (itoa cfg.memory_mb ++ codes "m") ∷ [])
        ∷ (cfg.image_digest ∷ codes "sleep" ∷ codes "infinity" ∷ [])
        ∷ [])

abbrev pub verb : Text → Text → List Text
verb action name = docker ∷ action ∷ name ∷ []

abbrev pub removal : Text → List Text
removal name = docker ∷ codes "rm" ∷ codes "-f" ∷ name ∷ []

-- The commands that look for a container of the name, and at its state and image.
abbrev pub listing : Text → List Text
listing name =
    docker
    ∷ codes "ps"
    ∷ codes "-a"
    ∷ codes "--filter"
    ∷ (codes "name=" ++ name)
    ∷ codes "--format"
    ∷ codes "{{.ID}}"
    ∷ []

abbrev pub inspection : Text → List Text
inspection name =
    docker ∷ codes "inspect" ∷ codes "-f" ∷ codes "{{.State.Running}}|{{.Config.Image}}" ∷ name ∷ []

-- The environment as options, in the order in which the map is walked.
abbrev environment : Dict Text → List Text
environment [] = []
environment ((key, value) ∷ more) = codes "-e" ∷ (key ++ (codes "=" ++ value)) ∷ environment more

-- The words of `Exec`
unfoldable pub exec_args : Handle → Text → Text → Dict Text → List Text
exec_args handle command cwd env =
    docker
    ∷ codes "exec"
    ∷ codes "-i"
    ∷ (when (not (is_empty cwd)) (codes "-w" ∷ cwd ∷ [])
        ++ (environment env ++ (handle.id ∷ codes "sh" ∷ codes "-lc" ∷ command ∷ [])))
