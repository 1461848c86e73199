-- ===== src/Patch.antt =====
-- internal/patch/patch.go: unified diffs, read and applied, and the bookkeeping that reverts them.
-- The types are here; the children hold the parser, the application of hunks and the bookkeeper.
pub mod Parse
pub mod Apply
pub mod Book
use krellin.Prelude.{ℕ, List}
use krellin.Prelude.Text.{Text}
use krellin.Prelude.Int.{ℤ}

-- The errors of the package, one for each message or failing call.
pub data PatchError : Type 0 where
  hunk_without_file no_files invalid_header bad_number : PatchError
  hunk_out_of_range context_mismatch delete_mismatch invalid_hunk_line : PatchError
  read_failed write_failed out_of_fuel : PatchError

-- The type `hunk`. Numbers are ideal: a header's number fits an int, and a sum of such that leaves
-- the range of int is out of range of every file, too.
pub record Hunk : Type 0 where
  pub old_start : ℤ
  pub old_lines : ℤ
  pub new_start : ℤ
  pub new_lines : ℤ
  pub lines : List Text
