-- ===== src/Repo.antt =====
-- internal/repo: `FindRoot` and `ResolveRoot`. The file system and the hash are parameters.
pub mod Nearest
pub mod Resolved
use krellin.Prelude.{
  ℕ, zero, suc, Bool, true, false, not, Option, none, some, List, [], ◌∷◌, if◌then◌else◌, length,
}
use krellin.Prelude.Text.{Text, codes, text_eq, is_empty}
use krellin.Prelude.Result.{Result, ok, err}
use krellin.FilePath.{clean, join_path, is_rooted, parts_of}
use krellin.FilePath.Dir.{dir_of}

-- The working directory, if it can be told, and what stands at a path: nothing, or a directory or a file.
pub record Disk : Type 0 where
  pub working_dir : Option Text
  pub is_dir : Text → Option Bool

pub data RepoError : Type 0 where
  start_required no_working_dir not_there root_not_found hash_root_required : RepoError

abbrev from_dir : Text → Option Text → Result RepoError Text
from_dir p none = err no_working_dir
from_dir p (some dir) = ok (join_path dir p)

-- `filepath.Abs(p)`
unfoldable pub abs_path : Disk → Text → Result RepoError Text
abs_path disk p = if is_rooted p then ok (clean p) else from_dir p disk.working_dir

abbrev is_there : Option Bool → Bool
is_there none = false
is_there (some b) = true

abbrev git_at : Text → Text
git_at dir = join_path dir (codes ".git")

-- There is a `.git` in the directory.
unfoldable pub has_git : Disk → Text → Bool
has_git disk dir = is_there (disk.is_dir (git_at dir))

abbrev pub unless_root : Bool → (Text → Option (Option Text)) → Text → Option (Option Text)
unless_root true again parent = some none
unless_root false again parent = again parent

abbrev pub look_at : Bool → (Text → Option (Option Text)) → Text → Option (Option Text)
look_at true again current = some (some current)
look_at false again current = unless_root (text_eq (dir_of current) current) again (dir_of current)

-- The loop; `none` in the outer option is the end of the fuel.
unfoldable pub find_from : ℕ → Disk → Text → Option (Option Text)
find_from zero disk current = none
find_from (suc fuel) disk current = look_at (has_git disk current) (find_from fuel disk) current

-- The fuel is the number of the directories from the root on.
abbrev pub loop_from : Disk → Text → Option (Option Text)
loop_from disk current = find_from (suc (length (parts_of true current))) disk current

abbrev pub found_or : Option (Option Text) → Result RepoError Text
found_or (some (some root)) = ok root
found_or (some none) = err root_not_found
found_or none = err root_not_found

-- The directory that the search begins in.
abbrev pub begin_at : Text → Option Bool → Result RepoError Text
begin_at path none = err not_there
begin_at path (some true) = ok path
begin_at path (some false) = ok (dir_of path)

abbrev pub searched : Disk → Result RepoError Text → Result RepoError Text
searched disk (err e) = err e
searched disk (ok current) = found_or (loop_from disk current)

abbrev from_abs : Disk → Result RepoError Text → Result RepoError Text
from_abs disk (err e) = err e
from_abs disk (ok path) = searched disk (begin_at path (disk.is_dir path))

-- `FindRoot`
unfoldable pub find_root : Disk → Text → Result RepoError Text
unfolding abs_path find_from
find_root disk start =
    if is_empty start then err start_required else from_abs disk (abs_path disk start)

abbrev pub abs_of : Disk → Result RepoError Text → Result RepoError Text
abs_of disk (err e) = err e
abs_of disk (ok root) = abs_path disk root

-- `ResolveRoot`
unfoldable pub resolve_root : Disk → Text → Result RepoError Text
unfolding find_root abs_path
resolve_root disk start = abs_of disk (find_root disk start)

-- `RepoID`, for the link that a path stands for, if it can be told, and the hash in hexadecimal
abbrev hashed : (Text → Option Text) → (Text → Text) → Result RepoError Text → Result RepoError Text
hashed link hash (err e) = err e
hashed link hash (ok path) = elim (link path) [ none ↦ ok (hash path) | some p ↦ ok (hash p) ]

unfoldable pub repo_id_of :
    Disk → (Text → Option Text) → (Text → Text) → Text → Result RepoError Text
unfolding abs_path
repo_id_of disk link hash root =
    if is_empty root then err hash_root_required else hashed link hash (abs_path disk root)
