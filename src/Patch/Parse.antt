-- ===== src/Patch/Parse.antt =====
-- `parseUnifiedDiff`, `parseHunkHeader`, `parseRange`.
pub mod Enough
use krellin.Prelude.{
  ℕ, zero, suc, ◌+◌, ◌-◌, ◌*◌, ◌^◌, Bool, true, false, ◌&&◌, ◌||◌, not, Option, none, some, List,
  [], ◌∷◌, ◌++◌, leb, ltb, ◌==◌, if◌then◌else◌, length,
}
use krellin.Prelude.Text.{Text, codes, is_empty, has_prefix, trim_prefix, split}
use krellin.Prelude.Int.{ℤ, pos, negsuc}
use krellin.Prelude.Result.{Result, ok, err, ◌>>=◌}
use krellin.Prelude.Dict.{Dict, lookup, insert}
use krellin.Patch.{
  PatchError, hunk_without_file, no_files, invalid_header, bad_number, out_of_fuel, Hunk,
}

is_digit : ℕ → Bool
is_digit c = leb b'0' c && leb c b'9'

-- The value of a run of digits, after what has been read; `none` at any other byte.
digits_from : ℕ → Text → Option ℕ
unfolding is_digit
digits_from n [] = some n
digits_from n (c ∷ s) =
    let rest = digits_from (n * 10 + (c - b'0')) s in if is_digit c then rest else none

unsigned : Text → Option ℕ
unfolding digits_from
unsigned [] = none
unsigned (c ∷ s) = digits_from 0 (c ∷ s)

abbrev max_int : ℕ
max_int = 9223372036854775807

positive : Option ℕ → Option ℤ
positive none = none
positive (some n) = if leb n max_int then some (pos n) else none

negative : Option ℕ → Option ℤ
negative none = none
negative (some zero) = some (pos 0)
negative (some (suc n)) = if leb n max_int then some (negsuc n) else none

-- `strconv.Atoi`: a sign or none, then digits, within the range of int.
unfoldable pub atoi : Text → Option ℤ
unfolding unsigned positive negative
atoi [] = none
atoi (c ∷ s) =
    if c == b'-'
    then negative (unsigned s)
    else if c == b'+'
    then positive (unsigned s)
    else positive (unsigned (c ∷ s))

number : Text → Result PatchError ℤ
unfolding atoi
number s = elim (atoi s) [ none ↦ err bad_number | some n ↦ ok n ]

range_of : List Text → Result PatchError (ℤ × ℤ)
unfolding number
range_of [] = err bad_number
range_of (start ∷ []) = number start >>= λ n. ok (n, pos 1)
range_of (start ∷ count ∷ _) = number start >>= λ n. number count >>= λ m. ok (n, m)

-- `parseRange`: `Split` gives one part at least, and parts after the second are not read.
unfoldable pub parse_range : Text → Result PatchError (ℤ × ℤ)
unfolding range_of split
parse_range r = range_of (split b',' r)

abbrev minus : Text
minus = codes "-"

abbrev plus : Text
plus = codes "+"

header_of : List Text → Result PatchError Hunk
unfolding parse_range trim_prefix
header_of (_ ∷ old_range ∷ new_range ∷ _) = parse_range (trim_prefix old_range minus) >>= λ old.
    parse_range (trim_prefix new_range plus) >>= λ new. ok (record {
      old_start = old.0;
      old_lines = old.1;
      new_start = new.0;
      new_lines = new.1;
      lines = [];
    })
header_of _ = err invalid_header

-- `@@ -oldStart,oldLines +newStart,newLines @@`
unfoldable pub parse_hunk_header : Text → Result PatchError Hunk
unfolding header_of
parse_hunk_header line = header_of (split b' ' line)

abbrev file_mark : Text
file_mark = codes "+++ b/"

abbrev hunk_mark : Text
hunk_mark = codes "@@"

-- The inner loop: the lines of a hunk, up to the next header, and the lines from there on.
unfoldable pub collect : List Text → List Text × List Text
collect [] = ([], [])
collect (line ∷ rest) =
    if has_prefix line hunk_mark || has_prefix line file_mark
    then ([], line ∷ rest)
    else (line ∷ (collect rest).0, (collect rest).1)

abbrev pub hunks_of : Text → Dict (List Hunk) → List Hunk
hunks_of file hunks = elim (lookup file hunks) [ none ↦ [] | some hs ↦ hs ]

-- `hunks[file] = append(hunks[file], h)`
abbrev add_hunk : Text → Hunk → Dict (List Hunk) → Dict (List Hunk)
add_hunk file h hunks = insert file (hunks_of file hunks ++ h ∷ []) hunks

abbrev pub Parsed : Type 0
Parsed = List Text × Dict (List Hunk)

-- The outer loop over the lines that are left; each round drops a line at least, so the number of
-- lines is fuel enough.
unfoldable pub parse_lines :
    ℕ → List Text → Text → List Text → Dict (List Hunk) → Result PatchError Parsed
unfolding collect parse_hunk_header lookup insert has_prefix trim_prefix is_empty
parse_lines zero [] current files hunks = ok (files, hunks)
parse_lines zero (line ∷ rest) current files hunks = err out_of_fuel
parse_lines (suc fuel) [] current files hunks = ok (files, hunks)
parse_lines (suc fuel) (line ∷ rest) current files hunks =
    let file = trim_prefix line file_mark in
    let next_file = parse_lines fuel rest file (files ++ file ∷ []) hunks in
    let after_hunk = λ (h : Hunk).
      parse_lines fuel (collect rest).1 current files
        (add_hunk current (record h { lines = h.lines ++ (collect rest).0 }) hunks) in
    let skipped = parse_lines fuel rest current files hunks in
    if has_prefix line file_mark
    then next_file
    else if has_prefix line hunk_mark
    then (if is_empty current then err hunk_without_file else parse_hunk_header line >>= after_hunk)
    else skipped

some_file : Parsed → Result PatchError Parsed
some_file ([], hunks) = err no_files
some_file (file ∷ files, hunks) = ok (file ∷ files, hunks)

unfoldable pub parse_unified_diff : Text → Result PatchError Parsed
unfolding parse_lines some_file
parse_unified_diff diff =
    parse_lines (length (split 10 diff)) (split 10 diff) [] [] [] >>= some_file
