-- ===== src/Tests/Policy.antt =====
-- internal/policy/policy.go on a repository in a home directory.
use krellin.Prelude.{◌≡◌, refl, ◌↔◌, true, none}
use krellin.Prelude.Text.{Text, codes, has_prefix}
use krellin.FilePath.{is_rooted, parts_of}
use krellin.FilePath.Under.{Under}
use krellin.Policy.{Policy, default_policy, validate_mount}
use krellin.Policy.Mounts.{validate_mount_iff}

abbrev repo : Text
repo = codes "/home/ann/repo"

abbrev below : Text
below = codes "/home/ann/repo/../repo/src"

abbrev policy : Policy
policy = default_policy repo (codes "/home/ann")

repo_root-rooted : is_rooted repo ≡ true
unfolding is_rooted has_prefix
repo_root-rooted = refl

below-rooted : is_rooted below ≡ true
unfolding is_rooted has_prefix
below-rooted = refl

validate_mount_iff_example :
    (validate_mount policy below ≡ none)
    ↔ Under (parts_of true below) (parts_of true policy.repo_root)
unfolding default_policy
validate_mount_iff_example = validate_mount_iff policy below refl repo_root-rooted below-rooted
