-- ===== src/Capsule/Docker.antt =====
-- internal/capsule/docker/docker.go: how a capsule is created, started, reset and used. The runner of commands is a parameter: it
-- takes the words of a command and gives the output, and an error with the exit code if there is one.
pub mod Commands
pub mod Running
use krellin.Prelude.Int.{ℤ, pos}
use krellin.Prelude.{
  ℕ, Bool, true, false, not, ◌&&◌, Option, none, some, List, [], ◌∷◌, ◌++◌, ltb, ◌==◌,
  if◌then◌else◌,
}
use krellin.Prelude.Text.{Text, codes, text_eq, is_empty, trim_space, trim_prefix, after_prefix}
use krellin.Prelude.Result.{Result, ok, err}
use krellin.Prelude.Dict.{Dict}
use krellin.Tools.Output.{itoa}
use krellin.Capsule.{Handle, Config}
use krellin.Capsule.Arguments.{
  container_name, docker, build_create_args, verb, removal, listing, inspection, exec_args,
}

pub record Failure : Type 0 where
  pub message : Text
  pub exit_code : Option ℤ

-- What a command gives: its output, and its error.
abbrev pub Answer : Type 0
Answer = Text × Option Failure

-- `strings.SplitN(s, "|", 2)`: what stands before the first bar, and what follows it
unfoldable pub cut : Text → Text × Option Text
cut [] = ([], none)
cut (c ∷ s) = let (before, after) = cut s in if c == b'|' then ([], some s) else (c ∷ before, after)

abbrev pub or_empty : Option Text → Text
or_empty none = []
or_empty (some t) = t

-- The handle of a capsule.
unfoldable handle_of : Config → Handle
handle_of cfg = record {
  id = container_name cfg.repo_id;
  repo_id = cfg.repo_id;
  repo_root = cfg.repo_root;
}

abbrev coded : Option ℤ → ℤ
coded none = pos 1
coded (some code) = code

module _ {S : Type 0} (run : List Text → S → Answer × S) where
  abbrev settled : Answer × S → Option Text × S
  settled ((out, none), s) = (none, s)
  settled ((out, some e), s) = (some e.message, s)

  -- A command whose output is not used; `none` is the result nil.
  abbrev pub does : List Text → S → Option Text × S
  does words s = settled (run words s)

  -- The next step is taken if there was no error.
  abbrev pub then_do : Option Text × S → (S → Option Text × S) → Option Text × S
  then_do (some e, s) next = (some e, s)
  then_do (none, s) next = next s

  -- `pullImage`
  unfoldable pub pull_image : Text → S → Option Text × S
  pull_image image s =
      if is_empty (trim_space image)
      then (some (codes "image required"), s)
      else does (docker ∷ codes "pull" ∷ image ∷ []) s

  -- A container is created; where that fails, the image is pulled and it is tried once more.
  abbrev after_pull : List Text → Text → Option Text × S → Option Text × S
  after_pull create e (some f, s) =
      (some (codes "create failed: " ++ (e ++ (codes " (pull failed: " ++ (f ++ codes ")")))), s)
  after_pull create e (none, s) = does create s

  abbrev or_pulled : Config → List Text → Option Text × S → Option Text × S
  or_pulled cfg create (none, s) = (none, s)
  or_pulled cfg create (some e, s) = after_pull create e (pull_image cfg.image_digest s)

  unfoldable pub create_container : Config → Text → S → Option Text × S
  create_container cfg name s =
      or_pulled cfg (build_create_args cfg name) (does (build_create_args cfg name) s)

  -- `Start` and `Stop`
  unfoldable pub start : Handle → S → Option Text × S
  start handle = does (verb (codes "start") handle.id)

  unfoldable pub stop : Handle → S → Option Text × S
  stop handle = does (verb (codes "stop") handle.id)

  -- The container is created anew and started.
  recreated : Config → Text → S → Option Text × S
  recreated cfg name s = then_do (create_container cfg name s) (does (verb (codes "start") name))

  -- Another image is asked for than the one that the container has.
  replaced : Config → Text → S → Option Text × S
  replaced cfg name s =
      then_do (does (verb (codes "stop") name) s)
        λ s₁. then_do (does (removal name) s₁) λ s₂. recreated cfg name s₂

  -- What is done by the state and the image of a container that is there.
  reused : Config → Text → Text × Option Text → S → Option Text × S
  unfolding replaced
  reused cfg name (running, image) s =
      let has = or_empty image in
      if not (is_empty has)
        && (not (is_empty cfg.image_digest) && not (text_eq has cfg.image_digest))
      then replaced cfg name s
      else if text_eq (trim_space running) (codes "true")
      then (none, s)
      else does (verb (codes "start") name) s

  abbrev inspected : Config → Text → Answer × S → Option Text × S
  inspected cfg name ((out, some e), s) = (some e.message, s)
  inspected cfg name ((out, none), s) = reused cfg name (cut (trim_space out)) s

  abbrev found : Config → Text → Answer × S → Option Text × S
  found cfg name ((out, some e), s) = (some e.message, s)
  found cfg name ((out, none), s) =
      if is_empty (trim_space out)
      then recreated cfg name s
      else inspected cfg name (run (inspection name) s)

  -- `Ensure`; the handle that goes with the result nil is that of `handle_of`.
  unfoldable pub ensure : Config → S → Option Text × S
  unfolding recreated reused
  ensure cfg s = let name = container_name cfg.repo_id in found cfg name (run (listing name) s)

  -- The id of the repository of a handle, or that of its name.
  abbrev repo_of : Handle → Text
  repo_of handle =
      if is_empty handle.repo_id then trim_prefix handle.id (codes "krellin-") else handle.repo_id

  -- The configuration that `Reset` creates with: only these three are set.
  abbrev reset_config : Handle → Text → Config
  reset_config handle digest = record {
    repo_id = repo_of handle;
    repo_root = handle.repo_root;
    image_digest = digest;
    user = [];
    network_on = false;
    cpus = 0;
    memory_mb = 0;
    created_at = [];
  }

  -- `Reset`; whether volumes are to be preserved is not read.
  unfoldable pub reset : Handle → Text → Bool → S → Option Text × S
  reset handle digest preserve_volumes s =
      let stopped = (does (verb (codes "stop") handle.id) s).1 in
      let removed = (does (removal handle.id) stopped).1 in
      if is_empty handle.repo_root
      then (some (codes "repo root required for reset"), removed)
      else create_container (reset_config handle digest) handle.id removed

  -- `SetNetwork`
  unfoldable pub set_network : Handle → Bool → S → Option Text × S
  set_network handle on = does (
      docker
      ∷ codes "network"
      ∷ (if on then codes "connect" else codes "disconnect")
      ∷ codes "bridge"
      ∷ handle.id
      ∷ [])

  abbrev committed : Answer × S → Result Text Text × S
  committed ((out, some e), s) = (err e.message, s)
  committed ((out, none), s) =
      if is_empty (trim_space out)
      then (err (codes "commit returned empty image id"), s)
      else (ok (trim_space out), s)

  -- `Commit`; the mode is not read.
  unfoldable pub commit : Handle → S → Result Text Text × S
  commit handle s = committed (run (verb (codes "commit") handle.id) s)

  abbrev exit_of : Answer × S → (Text × ℤ × Option Text) × S
  exit_of ((out, none), s) = ((out, pos 0, none), s)
  exit_of ((out, some e), s) = ((out, coded e.exit_code, some e.message), s)

  -- `Exec`: the output, the exit code and the error
  unfoldable pub exec : Handle → Text → Text → Dict Text → S → (Text × ℤ × Option Text) × S
  exec handle command cwd env s =
      if is_empty (trim_space command)
      then (([], pos 0, some (codes "command required")), s)
      else exit_of (run (exec_args handle command cwd env) s)
