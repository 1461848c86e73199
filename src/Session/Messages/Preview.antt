-- ===== src/Session/Messages/Preview.antt =====
-- The preview of a written file is short, whatever was written.
use krellin.Prelude.{
  ℕ, zero, suc, ◌≤◌, ◌≡◌, refl, ap, ◌∙◌, Option, none, some, List, [], ◌∷◌, ◌++◌, arith, ltb,
  length, take, drop, length-append, length-take, All, if_both, Bool-cases, inl, inr,
}
use krellin.Prelude.Text.{Text, codes, is_empty, split, trim_space}
use krellin.Prelude.Text.Laws.{IsFree, split-IsFree, split-append}
use krellin.Tools.Output.{itoa}
use krellin.Tools.Output.Digits.{itoa-IsFree}
use krellin.Session.Messages.{Labels, newline, unlines}
use krellin.Session.Messages.Block.{
  ellipsis, max_preview_lines, preview_line, shown_lines, preview_lines, preview_of, preview_if,
  write_preview,
}

-- A line of at most 207 bytes: four blanks, two hundred bytes and an ellipsis.
abbrev Short : Text → Type 0
Short line = length line ≤ 207

split-unlines :
    (lines : List Text)
    → All (IsFree newline) lines
    → split newline (unlines lines) ≡ lines ++ [] ∷ []
unfolding split unlines
split-unlines [] h = refl
split-unlines (line ∷ lines) (h, k) =
    split-append newline line (unlines lines) h ∙ ap (λ ls. line ∷ ls) (split-unlines lines k)

IsFree-append : (sep : ℕ) (s t : Text) → IsFree sep s → IsFree sep t → IsFree sep (s ++ t)
IsFree-append sep [] t h k = k
IsFree-append sep (c ∷ s) t (h, r) k = (h, IsFree-append sep s t r k)

IsFree-take : (sep n : ℕ) (s : Text) → IsFree sep s → IsFree sep (take n s)
IsFree-take sep zero s h = tt
IsFree-take sep (suc n) [] h = tt
IsFree-take sep (suc n) (c ∷ s) (h, k) = (h, IsFree-take sep n s k)

All-take : {A : Type 0} (P : A → Type 0) (n : ℕ) (xs : List A) → All P xs → All P (take n xs)
All-take P zero xs h = tt
All-take P (suc n) [] h = tt
All-take P (suc n) (x ∷ xs) (h, k) = (h, All-take P n xs k)

All-append : {A : Type 0} (P : A → Type 0) (xs ys : List A) → All P xs → All P ys → All P (xs ++ ys)
All-append P [] ys h k = k
All-append P (x ∷ xs) ys (h, r) k = (h, All-append P xs ys r k)

IsFree-ellipsis : IsFree newline ellipsis
IsFree-ellipsis = omega arith

preview_line-IsFree : (line : Text) → IsFree newline line → IsFree newline (preview_line line)
unfolding preview_line
preview_line-IsFree line h = IsFree-append newline (codes "    ") _ (omega arith) (
    if_both (IsFree newline) (ltb 200 (length line)) _ _
      (λ e.
        IsFree-append newline (take 200 line) ellipsis (IsFree-take newline 200 line h)
          IsFree-ellipsis)
      (λ e. h))

preview_line-Short : (line : Text) → Short (preview_line line)
unfolding preview_line
preview_line-Short line = elim (Bool-cases (ltb 200 (length line))) [
  | inl e ↦ rw e (omega (arith, length-append (take 200 line) ellipsis, length-take 200 line))
  | inr e ↦ rw e (ground arith)
]

preview_lines-All :
    (P Q : Text → Type 0)
    → ((line : Text) → P line → Q (preview_line line))
    → (lines : List Text) → All P lines
    → All Q (preview_lines lines)
unfolding preview_lines
preview_lines-All P Q f [] h = tt
preview_lines-All P Q f (line ∷ lines) (h, k) = (f line h, preview_lines-All P Q f lines k)

length-preview_lines : (lines : List Text) → length (preview_lines lines) ≡ length lines
unfolding preview_lines
length-preview_lines [] = refl
length-preview_lines (line ∷ lines) = ap suc (length-preview_lines lines)

All-any : {A : Type 0} (xs : List A) → All (λ x. Unit {0}) xs
All-any [] = tt
All-any (x ∷ xs) = (tt, All-any xs)

shown_lines-IsFree :
    (lines : List Text) → All (IsFree newline) lines → All (IsFree newline) (shown_lines lines)
unfolding shown_lines
shown_lines-IsFree lines h =
    if_both (All (IsFree newline)) (ltb max_preview_lines (length lines)) _ _
      (λ e.
        All-append (IsFree newline) (take 6 lines) (ellipsis ∷ [])
          (All-take (IsFree newline) 6 lines h) (IsFree-ellipsis, tt))
      (λ e. h)

length-shown_lines : (lines : List Text) → length (shown_lines lines) ≤ 7
unfolding shown_lines
length-shown_lines lines = elim (Bool-cases (ltb max_preview_lines (length lines))) [
  | inl e ↦ rw e (omega (arith, length-append (take 6 lines) (ellipsis ∷ []), length-take 6 lines))
  | inr e ↦ rw e (ground arith)
]

preview_of-IsFree : (content : Text) → All (IsFree newline) (preview_of content)
preview_of-IsFree content = (
  IsFree-append newline (codes "  wrote ") _ (omega arith) (
      IsFree-append newline (itoa (length content)) _ (itoa-IsFree (length content)) (omega arith)),
  (
    omega arith,
    preview_lines-All (IsFree newline) (IsFree newline) preview_line-IsFree
        (shown_lines (split newline content))
        (shown_lines-IsFree (split newline content) (split-IsFree newline content)),
  ),
)

-- At most ten lines, with the first one, and all others short.
abbrev pub Bounded : List Text → Type 0
Bounded lines = (length lines ≤ 10) × All Short (drop 1 lines)

content-Bounded : (content : Text) → Bounded (split newline (unlines (preview_of content)))
content-Bounded content =
    let shown = shown_lines (split newline content) in
    rw (split-unlines (preview_of content) (preview_of-IsFree content)) (
      omega (
        arith,
        length-append (preview_lines shown) ([] ∷ []),
        length-preview_lines shown,
        length-shown_lines (split newline content),
      ),
      (
        omega arith,
        All-append Short (preview_lines shown) ([] ∷ [])
            (preview_lines-All (λ line. Unit {0}) Short (λ line h. preview_line-Short line) shown
              (All-any shown))
            (omega arith),
      ),
    )

-- Whatever a tool call writes, and with arguments of any size: what a user is shown of it has at most ten lines, of
-- which all but the first, which tells the number of bytes, have at most 207 bytes.
pub write_preview-Bounded :
    (labels : Labels) (args : Text) → Bounded (split newline (write_preview labels args))
unfolding write_preview split
write_preview-Bounded labels args = go (labels.written args)
  where
    go : (o : Option (Text × Text)) → Bounded (split newline (preview_if o))
    go none = (omega arith, tt)
    go (some (path, content)) =
        if_both (λ t. Bounded (split newline t)) (is_empty (trim_space content))
          (codes "  wrote 0 bytes") (unlines (preview_of content)) (λ e. (omega arith, tt))
          (λ e. content-Bounded content)
