-- ===== src/Policy.antt =====
-- internal/policy/policy.go: which host paths may be mounted into a capsule.
pub mod Mounts
use krellin.Prelude.{
  ℕ, Bool, true, false, ◌&&◌, ◌||◌, not, Option, none, some, List, [], ◌∷◌, ◌++◌, if◌then◌else◌,
}
use krellin.Prelude.Text.{Text, codes, text_eq, is_empty, has_prefix, has_suffix}
use krellin.FilePath.{slash, clean}

abbrev default_cpus : ℕ
default_cpus = 2

abbrev default_memory_mb : ℕ
default_memory_mb = 4096

abbrev pub network_on : Text
network_on = codes "on"

abbrev network_off : Text
network_off = codes "off"

pub record Resources : Type 0 where
  pub cpus : ℕ
  pub memory_mb : ℕ

pub record Policy : Type 0 where
  pub repo_root : Text
  pub home_dir : Text
  pub network : Text
  pub resources : Resources
  pub unsafe : Bool

unfoldable pub default_policy : Text → Text → Policy
default_policy repo_root home_dir = record {
  repo_root = repo_root;
  home_dir = home_dir;
  network = network_on;
  resources = record { cpus = default_cpus; memory_mb = default_memory_mb };
  unsafe = false;
}

-- The errors of `ValidateMount`, one for each message.
pub data MountError : Type 0 where
  root_forbidden docker_socket_forbidden home_forbidden no_repo_root outside_repo : MountError

unfoldable pub same_or_child : Text → Text → Bool
unfolding has_prefix
same_or_child path root =
    let root_clean = clean root in
    let path_clean = clean path in
    let root_dir =
      if not (has_suffix root_clean (slash ∷ [])) then root_clean ++ slash ∷ [] else root_clean in
    if text_eq path_clean root_clean then true else has_prefix (path_clean ++ slash ∷ []) root_dir

abbrev docker_socket : Text
docker_socket = codes "/var/run/docker.sock"

-- `none` is the nil error: the mount is allowed.
unfoldable pub validate_mount : Policy → Text → Option MountError
validate_mount policy host_path =
    let cleaned = clean host_path in
    if policy.unsafe
    then none
    else if not (is_empty policy.repo_root) && same_or_child cleaned policy.repo_root
    then none
    else if text_eq cleaned (slash ∷ [])
    then some root_forbidden
    else if has_prefix cleaned docker_socket
    then some docker_socket_forbidden
    else if not (is_empty policy.home_dir) && same_or_child cleaned policy.home_dir
    then some home_forbidden
    else if is_empty policy.repo_root
    then some no_repo_root
    else some outside_repo
