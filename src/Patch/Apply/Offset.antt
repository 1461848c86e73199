-- ===== src/Patch/Apply/Offset.antt =====
-- The offset that `applyHunks` keeps.
use krellin.Prelude.{
  ℕ, ◌+◌, ◌≡◌, refl, ap, ◌∙◌, List, [], ◌∷◌, ◌++◌, All, arith, length, length-append,
}
use krellin.Prelude.Text.{Text}
use krellin.Prelude.Int.{ℤ, pos, negsuc, ◌+ℤ◌, ◌-ℤ◌, int_laws}
use krellin.Prelude.Result.{ok, >>=-eq-ok}
use krellin.Patch.{Hunk}
use krellin.Patch.Apply.{apply_at, apply_index, apply_loop}
use krellin.Patch.Apply.Lines.{olds, news, marked, IsLine}
use krellin.Patch.Apply.Spec.{apply_at_sound}

length-news-olds :
    (body : List Text)
    → All IsLine body
    → length (news body) + marked b'-' body ≡ length (olds body) + marked b'+' body
unfolding olds news marked
length-news-olds [] h = refl
length-news-olds ([] ∷ body) (_, h) = length-news-olds body h
length-news-olds ((c ∷ text) ∷ body) (k, h) = ground (arith, length-news-olds body h)

length-apply_at :
    (lines : List Text) (idx : ℕ) (body : List Text) (r : List Text × ℕ × ℕ)
    → apply_at lines idx body ≡ ok r
    → length r.0 + r.2 ≡ length lines + r.1
length-apply_at lines idx body r h =
    let ((ls, (front, back, at, old, new)), plus, minus) = apply_at_sound lines idx body r h in
    let before : length lines ≡ length front + (length (olds body) + length back) =
      ap length old
      ∙ length-append front (olds body ++ back)
      ∙ ap (λ n. length front + n) (length-append (olds body) back) in
    let after : length r.0 ≡ length front + (length (news body) + length back) =
      ap length new
      ∙ length-append front (news body ++ back)
      ∙ ap (λ n. length front + n) (length-append (news body) back) in
    omega (arith, length-news-olds body ls)

length-apply_index :
    (lines : List Text) (idx : ℤ) (body : List Text) (r : List Text × ℕ × ℕ)
    → apply_index lines idx body ≡ ok r
    → length r.0 + r.2 ≡ length lines + r.1
length-apply_index lines (pos idx) body r h = length-apply_at lines idx body r h
length-apply_index lines (negsuc idx) body r h = cc

-- Through all the hunks of a file, the offset is by how much the file has grown.
apply_loop-offset :
    (lines lines' : List Text) (offset offset' : ℤ) (hunks : List Hunk)
    → apply_loop lines offset hunks ≡ ok (lines', offset')
    → pos (length lines') -ℤ offset' ≡ pos (length lines) -ℤ offset
unfolding apply_loop
apply_loop-offset lines lines' offset offset' [] h = ground arith
apply_loop-offset lines lines' offset offset' (k ∷ hunks) h =
    let (done, first, later) =
      >>=-eq-ok (apply_index lines (k.old_start -ℤ pos 1 +ℤ offset) k.lines)
        (λ done. apply_loop done.0 (offset +ℤ (pos done.1 -ℤ pos done.2)) hunks) (lines', offset')
        h in
    let grown = length-apply_index lines (k.old_start -ℤ pos 1 +ℤ offset) k.lines done first in
    apply_loop-offset done.0 lines' (offset +ℤ (pos done.1 -ℤ pos done.2)) offset' hunks later
    ∙ omega (int_laws, grown)
