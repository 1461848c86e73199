-- ===== src/Patch/Apply.antt =====
-- `applyHunks`: the hunks of one file, applied to its content.
pub mod Lines
pub mod Spec
pub mod Inverse
pub mod Offset
use krellin.Prelude.{
  ℕ, zero, suc, ◌+◌, ◌-◌, Bool, true, false, Option, none, some, List, [], ◌∷◌, ◌++◌, leb, ltb,
  ◌==◌, if◌then◌else◌, length, get_elem?, take, drop,
}
use krellin.Prelude.Text.{Text, text_eq, is_empty, split, join}
use krellin.Prelude.Int.{ℤ, pos, negsuc, ◌+ℤ◌, ◌-ℤ◌}
use krellin.Prelude.Result.{Result, ok, err, ◌>>=◌}
use krellin.Patch.{
  PatchError, hunk_out_of_range, context_mismatch, delete_mismatch, invalid_hunk_line, Hunk,
}

-- The variables of the loop over the lines of a hunk.
pub record Body : Type 0 where
  pub new_lines : List Text
  pub removed : ℕ
  pub added : ℕ
  pub cursor : ℕ

-- `cursor < len(lines) && lines[cursor] == text`
unfoldable pub line_is : List Text → ℕ → Text → Bool
line_is lines cursor text = elim (get_elem? lines cursor) [ none ↦ false | some l ↦ text_eq l text ]

unfoldable pub apply_line : List Text → Body → Text → Result PatchError Body
apply_line lines b [] = ok b
apply_line lines b (prefix ∷ text) =
    if prefix == b' '
    then (if line_is lines b.cursor text
        then ok (record b { new_lines = b.new_lines ++ text ∷ []; cursor = b.cursor + 1 })
        else err context_mismatch)
    else if prefix == b'-'
    then (if line_is lines b.cursor text
        then ok (record b { cursor = b.cursor + 1; removed = b.removed + 1 })
        else err delete_mismatch)
    else if prefix == b'+'
    then ok (record b { new_lines = b.new_lines ++ text ∷ []; added = b.added + 1 })
    else err invalid_hunk_line

unfoldable pub apply_lines : List Text → Body → List Text → Result PatchError Body
apply_lines lines b [] = ok b
apply_lines lines b (l ∷ ls) = apply_line lines b l >>= λ b'. apply_lines lines b' ls

abbrev pub start : ℕ → Body
start idx = record { new_lines = []; removed = 0; added = 0; cursor = idx }

-- One hunk at a line: the new lines of the file, and how many were added and removed.
unfoldable pub apply_at : List Text → ℕ → List Text → Result PatchError (List Text × ℕ × ℕ)
unfolding apply_lines
apply_at lines idx body =
    if leb idx (length lines)
    then (apply_lines lines (start idx) body >>= λ b.
        ok (take idx lines ++ (b.new_lines ++ drop b.cursor lines), b.added, b.removed))
    else err hunk_out_of_range

-- `idx < 0` is refused.
abbrev apply_index : List Text → ℤ → List Text → Result PatchError (List Text × ℕ × ℕ)
apply_index lines (pos idx) body = apply_at lines idx body
apply_index lines (negsuc _) body = err hunk_out_of_range

-- The loop over the hunks: the lines and the offset.
unfoldable pub apply_loop : List Text → ℤ → List Hunk → Result PatchError (List Text × ℤ)
apply_loop lines offset [] = ok (lines, offset)
apply_loop lines offset (h ∷ hs) =
    apply_index lines (h.old_start -ℤ pos 1 +ℤ offset) h.lines >>= λ done.
    apply_loop done.0 (offset +ℤ (pos done.1 -ℤ pos done.2)) hs

-- The last line is dropped if it is empty.
unfoldable drop_last_empty : List Text → List Text
drop_last_empty [] = []
drop_last_empty (l ∷ []) = if is_empty l then [] else l ∷ []
drop_last_empty (l ∷ m ∷ ls) = l ∷ drop_last_empty (m ∷ ls)

unfoldable pub apply_hunks : Text → List Hunk → Result PatchError Text
unfolding apply_loop drop_last_empty
apply_hunks content hunks =
    apply_loop (drop_last_empty (split 10 content)) (pos 0) hunks >>= λ done.
    ok (join 10 done.0 ++ 10 ∷ [])
