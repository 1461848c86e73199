-- ===== src/Patch/Book.antt =====
-- The Bookkeeper: `Apply`, `Revert`, `Diff` and the last patch. The files are a map from cleaned
-- paths to contents; a read fails where there is none, a write where the disk refuses the path, and then the file is
-- left as it was. A write that fails with a part of the file written is not modelled.
pub mod Restore
pub mod Prepared
pub mod Applied
use krellin.Prelude.{ℕ, Bool, true, false, Option, none, some, List, [], ◌∷◌, ◌++◌, if◌then◌else◌}
use krellin.Prelude.Text.{Text, codes, split}
use krellin.Prelude.Result.{Result, ok, err}
use krellin.Prelude.Dict.{Dict, lookup, insert}
use krellin.FilePath.{join_path}
use krellin.Patch.{PatchError, read_failed, write_failed, Hunk}
use krellin.Patch.Parse.{Parsed, hunks_of, parse_unified_diff}
use krellin.Patch.Apply.{apply_hunks}

pub record Disk : Type 0 where
  pub files : Dict Text
  pub refuses : Text → Bool

-- `os.ReadFile`
abbrev pub read_file : Disk → Text → Option Text
read_file d path = lookup path d.files

-- `os.WriteFile`
abbrev pub write_file : Disk → Text → Text → Option Disk
write_file d path content =
    if d.refuses path then none else some (record d { files = insert path content d.files })

pub record Bookkeeper : Type 0 where
  pub root : Text
  pub originals : Dict Text
  pub last_files : List Text
  pub last_patch : Text

unfoldable pub new_bookkeeper : Text → Bookkeeper
new_bookkeeper root = record { root = root; originals = []; last_files = []; last_patch = [] }

-- The first content that is seen of a file is kept.
abbrev pub remember : Text → Text → Dict Text → Dict Text
remember file orig originals = elim (lookup file originals) [
  | none ↦ insert file orig originals
  | some _ ↦ originals
]

-- The first loop of `Apply`: the new contents, and what the bookkeeper has noted, also on failure.
unfoldable pub prepare :
    Disk
    → Dict (List Hunk)
    → List Text
    → Bookkeeper
    → Dict Text
    → Result PatchError (Dict Text) × Bookkeeper
prepare d hunks [] b contents = (ok contents, b)
prepare d hunks (file ∷ files) b contents = elim (read_file d (join_path b.root file)) [
  | none ↦ (err read_failed, b)
  | some orig ↦
      let noted = record b { originals = remember file orig b.originals } in
      elim (apply_hunks orig (hunks_of file hunks)) [
        | err e ↦ (err e, noted)
        | ok content ↦
            prepare d hunks files (record noted { last_files = noted.last_files ++ file ∷ [] })
              (insert file content contents)
      ]
]

abbrev content_of : Text → Dict Text → Text
content_of file contents = elim (lookup file contents) [ none ↦ [] | some c ↦ c ]

-- The second loop of `Apply`: the files are written in order, up to the first that cannot be.
unfoldable pub write_all : Text → Dict Text → List Text → Disk → Bool × Disk
write_all root contents [] d = (true, d)
write_all root contents (file ∷ files) d =
    elim (write_file d (join_path root file) (content_of file contents)) [
      | none ↦ (false, d)
      | some d' ↦ write_all root contents files d'
    ]

abbrev finish_apply :
    Text → Bookkeeper → Bool × Disk → Result PatchError (List Text) × Bookkeeper × Disk
finish_apply diff b (true, d) = (ok b.last_files, record b { last_patch = diff }, d)
finish_apply diff b (false, d) = (err write_failed, b, d)

abbrev after_prepare :
    Text
    → List Text
    → Disk
    → Result PatchError (Dict Text) × Bookkeeper
    → Result PatchError (List Text) × Bookkeeper × Disk
after_prepare diff files d (err e, b) = (err e, b, d)
after_prepare diff files d (ok contents, b) =
    finish_apply diff b (write_all b.root contents files d)

abbrev apply_parsed :
    Bookkeeper
    → Disk
    → Text
    → Result PatchError Parsed
    → Result PatchError (List Text) × Bookkeeper × Disk
apply_parsed b d diff (err e) = (err e, b, d)
apply_parsed b d diff (ok (files, hunks)) =
    after_prepare diff files d
      (prepare d hunks files (record b { last_files = []; last_patch = [] }) [])

-- `Apply`
unfoldable pub apply : Bookkeeper → Disk → Text → Result PatchError (List Text) × Bookkeeper × Disk
apply b d diff = apply_parsed b d diff (parse_unified_diff diff)

-- `Revert`, over the noted files in the order in which the map gives them.
unfoldable pub revert_all : Text → List (Text × Text) → Disk → Bool × Disk
revert_all root [] d = (true, d)
revert_all root ((file, orig) ∷ entries) d = elim (write_file d (join_path root file) orig) [
  | none ↦ (false, d)
  | some d' ↦ revert_all root entries d'
]

-- `Diff`, with the library that compares two lists of lines as a parameter.
module _ (unified_diff : Text → List Text → List Text → Option Text) where
  unfoldable pub diff_files : Bookkeeper → Disk → List Text → Option Text
  diff_files b d [] = some []
  diff_files b d (file ∷ files) = elim (lookup file b.originals) [
    | none ↦ diff_files b d files
    | some orig ↦ elim (read_file d (join_path b.root file)) [
      | none ↦ none
      | some curr ↦ elim (unified_diff file (split 10 orig) (split 10 curr)) [
        | none ↦ none
        | some patch ↦ elim (diff_files b d files) [
          | none ↦ none
          | some rest ↦ some (patch ++ rest)
        ]
      ]
    ]
  ]

  unfoldable pub diff : Bookkeeper → Disk → Option (Text × List Text)
  diff b d = elim (diff_files b d b.last_files) [
    | none ↦ none
    | some text ↦ some (text, b.last_files)
  ]
