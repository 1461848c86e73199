-- ===== src/Tests/Patch.antt =====
-- Hunks and the bookkeeper on small files.
use krellin.Prelude.{
  ◌≢◌, sym, ap, ◌∙◌, some, arith, Bool-cases, ◌≡◌, refl, ◌↔◌, inl, inr, true, false, List, [], ◌∷◌,
  ◌++◌,
}
use krellin.Prelude.Text.{Text, codes, text_eq, text_eq_iff}
use krellin.Prelude.Int.{pos, ◌+ℤ◌, ◌-ℤ◌}
use krellin.Prelude.Result.{ok, err}
use krellin.Prelude.Dict.{lookup}
use krellin.FilePath.{join_path, clean, parts_of, render, is_rooted}
use krellin.Patch.{Hunk, out_of_fuel}
use krellin.Patch.Parse.{parse_unified_diff}
use krellin.Patch.Parse.Enough.{parse_unified_diff-Fine}
use krellin.Patch.Apply.{apply_line, line_is, apply_lines, apply_at, apply_loop}
use krellin.Patch.Apply.Lines.{marked}
use krellin.Patch.Apply.Spec.{Turns, apply_at-Turns}
use krellin.Patch.Apply.Inverse.{invert, apply_at-invert}
use krellin.Patch.Book.{Disk, read_file, Bookkeeper, new_bookkeeper, apply, revert_all}
use krellin.Patch.Book.Restore.{Noted, Covered, revert_all-restores}
use krellin.Patch.Book.Applied.{After, apply-Restores, new_bookkeeper-Restores}

abbrev lines : List Text
lines = codes "a" ∷ codes "b" ∷ []

abbrev body : List Text
body = codes "-b" ∷ codes "+c" ∷ codes "+d" ∷ []

abbrev changed : List Text
changed = codes "a" ∷ codes "c" ∷ codes "d" ∷ []

changes : apply_at lines 1 body ≡ ok (changed, 2, 1)
unfolding apply_at apply_lines apply_line line_is text_eq
changes = refl

apply_at-Turns_example :
    (apply_at lines 1 body ≡ ok (changed, marked b'+' body, marked b'-' body))
    ↔ Turns lines 1 body changed
apply_at-Turns_example = apply_at-Turns lines 1 body changed

apply_at-invert_example : apply_at changed 1 (invert body) ≡ ok (lines, 1, 2)
apply_at-invert_example = apply_at-invert lines 1 body changed 2 1 changes

abbrev hunks : List Hunk
hunks =
    record {
      old_start = pos 2;
      old_lines = pos 1;
      new_start = pos 2;
      new_lines = pos 2;
      lines = body;
    }
    ∷ []

grows : apply_loop lines (pos 0) hunks ≡ ok (changed, pos 1)
unfolding apply_loop apply_at apply_lines apply_line line_is text_eq ◌+ℤ◌ ◌-ℤ◌
grows = refl

abbrev root : Text
root = codes "/r"

abbrev disk : Disk
disk = record { files = (codes "/r/f", codes "b") ∷ []; refuses = λ path. false }

abbrev book : Bookkeeper
book = new_bookkeeper root

abbrev diff : Text
diff = codes "+++ b/f" ++ 10 ∷ codes "@@ -1,1 +1,1 @@" ++ 10 ∷ codes "-b" ++ 10 ∷ codes "+c"

apply-Restores_example : After disk (apply book disk diff)
apply-Restores_example =
    apply-Restores book disk disk diff (new_bookkeeper-Restores root disk)
      (unfold new_bookkeeper in λ f g o f_in g_in same. absurd g_in)

abbrev edited : Disk
edited = record { files = (codes "/r/f", codes "c") ∷ []; refuses = λ path. false }

abbrev entries : List (Text × Text)
entries = (codes "f", codes "b") ∷ []

path_of_f : join_path root (codes "f") ≡ codes "/r/f"
unfolding join_path clean parts_of render is_rooted
path_of_f = refl

noted_f : read_file disk (codes "/r/f") ≡ some (codes "b")
unfolding lookup text_eq
noted_f = refl

noted : Noted root disk entries
noted file orig (inl at) =
    rw (ap (λ (x : Text × Text). x.0) at, ap (λ (x : Text × Text). x.1) at, path_of_f) noted_f
noted file orig (inr at) = absurd at

covered : Covered root disk edited entries
unfolding lookup
covered path = elim (Bool-cases (text_eq path (codes "/r/f"))) [
  | inl e ↦
      inr (codes "f", codes "b", inl refl, path_of_f ∙ sym ((text_eq_iff path (codes "/r/f")).0 e))
  | inr e ↦ inl (ground arith)
]

revert_all-restores_example :
    ((revert_all root entries edited).0 ≡ true)
    × ((path : Text) → read_file (revert_all root entries edited).1 path ≡ read_file disk path)
revert_all-restores_example =
    revert_all-restores root disk edited entries noted covered (λ file orig at. refl)

parse_unified_diff-Fine_example : parse_unified_diff diff ≢ err out_of_fuel
parse_unified_diff-Fine_example = parse_unified_diff-Fine diff
