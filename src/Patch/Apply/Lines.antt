-- ===== src/Patch/Apply/Lines.antt =====
-- The loop over the lines of a hunk, against the lines that the hunk expects and brings.
use mathlib.Core.List.{append-nil}
use mathlib.Core.Path.{subst}
use native.Mathlib.Nat.{add_assoc}
use krellin.Prelude.{
  ℕ, zero, suc, ◌+◌, ◌≡◌, refl, sym, ap, ◌∙◌, ◌⊎◌, inl, inr, true, false, some, List, [], ◌∷◌, ◌++◌,
  All, arith, ◌==◌, if◌then◌else◌, length, get_elem?, drop, append_assoc, length-append, ==_iff,
  Bool-cases,
}
use krellin.Prelude.Text.{Text, text_eq_iff, text_eq_refl}
use krellin.Prelude.Result.{ok, ◌>>=◌, >>=-eq-ok}
use krellin.Patch.Apply.{Body, line_is, apply_line, apply_lines}

-- The lines that a hunk expects: those marked with a space or a minus. Empty lines are skipped.
unfoldable pub olds : List Text → List Text
olds [] = []
olds ([] ∷ ls) = olds ls
olds ((c ∷ text) ∷ ls) = if c == b'+' then olds ls else text ∷ olds ls

-- The lines that a hunk brings: those marked with a space or a plus.
unfoldable pub news : List Text → List Text
news [] = []
news ([] ∷ ls) = news ls
news ((c ∷ text) ∷ ls) = if c == b'-' then news ls else text ∷ news ls

abbrev pub IsLine : Text → Type 0
IsLine [] = Unit
IsLine (c ∷ text) = (c ≡ b' ') ⊎ (c ≡ b'-') ⊎ (c ≡ b'+')

-- How many lines are marked so.
unfoldable pub marked : ℕ → List Text → ℕ
marked m [] = 0
marked m ([] ∷ ls) = marked m ls
marked m ((c ∷ text) ∷ ls) = if c == m then suc (marked m ls) else marked m ls

-- The body `b` after the lines of a hunk.
abbrev advance : Body → List Text → Body
advance b body = record {
  new_lines = b.new_lines ++ news body;
  removed = b.removed + marked b'-' body;
  added = b.added + marked b'+' body;
  cursor = b.cursor + length (olds body);
}

get_elem?-length :
    (front : List Text) (l : Text) (back : List Text)
    → get_elem? (front ++ l ∷ back) (length front) ≡ some l
get_elem?-length [] l back = refl
get_elem?-length (f ∷ front) l back = get_elem?-length front l back

line_is-at :
    (front : List Text) (l : Text) (back : List Text)
    → line_is (front ++ l ∷ back) (length front) l ≡ true
unfolding line_is
line_is-at front l back = rw (get_elem?-length front l back, line_is) (text_eq_refl l)

-- A line that is where the test looks for it.
line_is-split :
    (lines : List Text) (cursor : ℕ) (text : Text)
    → line_is lines cursor text ≡ true
    → drop cursor lines ≡ text ∷ drop (suc cursor) lines
unfolding line_is
line_is-split [] cursor text h = cc
line_is-split (l ∷ lines) zero text h = ground (arith, text_eq_iff l text)
line_is-split (l ∷ lines) (suc cursor) text h = line_is-split lines cursor text h

olds-cons : (l : Text) (ls : List Text) → olds (l ∷ ls) ≡ olds (l ∷ []) ++ olds ls
unfolding olds
olds-cons [] ls = refl
olds-cons (c ∷ text) ls = ground arith

news-cons : (l : Text) (ls : List Text) → news (l ∷ ls) ≡ news (l ∷ []) ++ news ls
unfolding news
news-cons [] ls = refl
news-cons (c ∷ text) ls = ground arith

marked-cons :
    (m : ℕ) (l : Text) (ls : List Text) → marked m (l ∷ ls) ≡ marked m (l ∷ []) + marked m ls
unfolding marked
marked-cons m [] ls = omega arith
marked-cons m (c ∷ text) ls = ground arith

advance-advance :
    (b : Body) (l : Text) (ls : List Text) → advance (advance b (l ∷ [])) ls ≡ advance b (l ∷ ls)
advance-advance b l ls =
    rw (news-cons l ls, olds-cons l ls, marked-cons b'-' l ls, marked-cons b'+' l ls)
      (λ i. record {
        new_lines = append_assoc b.new_lines (news (l ∷ [])) (news ls) i;
        removed = add_assoc b.removed (marked b'-' (l ∷ [])) (marked b'-' ls) i;
        added = add_assoc b.added (marked b'+' (l ∷ [])) (marked b'+' ls) i;
        cursor = cursors i;
      })
  where
    cursors :
        b.cursor + length (olds (l ∷ [])) + length (olds ls)
        ≡ b.cursor + length (olds (l ∷ []) ++ olds ls)
    cursors = omega (arith, length-append (olds (l ∷ [])) (olds ls))

-- One line.
abbrev Takes : List Text → Body → Text → Body → Type 0
Takes lines b l b' =
    IsLine l
    × (drop b.cursor lines ≡ olds (l ∷ []) ++ drop b'.cursor lines)
    × (b' ≡ advance b (l ∷ []))

drop_add-one : (n : ℕ) (xs : List Text) → drop (n + 1) xs ≡ drop (suc n) xs
drop_add-one n xs = let e : n + 1 ≡ suc n = omega arith in ap (λ k. drop k xs) e

module _ (lines : List Text) (b b' : Body) (text : Text) where
  context-Takes : apply_line lines b (b' ' ∷ text) ≡ ok b' → Takes lines b (b' ' ∷ text) b'
  unfolding apply_line olds news marked
  context-Takes h = elim (Bool-cases (line_is lines b.cursor text)) [
    | inl e ↦ ground (arith, line_is-split lines b.cursor text e, drop_add-one b.cursor lines)
    | inr e ↦ absurd (ground arith)
  ]

  delete-Takes : apply_line lines b (b'-' ∷ text) ≡ ok b' → Takes lines b (b'-' ∷ text) b'
  unfolding apply_line olds news marked
  delete-Takes h = elim (Bool-cases (line_is lines b.cursor text)) [
    | inl e ↦ ground (
      arith,
      line_is-split lines b.cursor text e,
      drop_add-one b.cursor lines,
      append-nil b.new_lines,
    )
    | inr e ↦ absurd (ground arith)
  ]

  add-Takes : apply_line lines b (b'+' ∷ text) ≡ ok b' → Takes lines b (b'+' ∷ text) b'
  unfolding apply_line olds news marked
  add-Takes h = ground arith

  apply_line-invalid :
      (c : ℕ)
      → (c == b' ') ≡ false
      → (c == b'-') ≡ false
      → (c == b'+') ≡ false
      → apply_line lines b (c ∷ text) ≡ ok b'
      → ⊥
  unfolding apply_line
  apply_line-invalid c e f g h = ground arith

  at_mark :
      (c d : ℕ)
      → (c == d) ≡ true
      → (apply_line lines b (d ∷ text) ≡ ok b' → Takes lines b (d ∷ text) b')
      → apply_line lines b (c ∷ text) ≡ ok b'
      → Takes lines b (c ∷ text) b'
  at_mark c d e =
      subst
        (λ x.
          (apply_line lines b (d ∷ text) ≡ ok b' → Takes lines b (d ∷ text) b')
          → apply_line lines b (x ∷ text) ≡ ok b'
          → Takes lines b (x ∷ text) b')
        (sym ((==_iff c d).0 e)) (λ k. k)

apply_line-Takes :
    (lines : List Text) (b b' : Body) (l : Text) → apply_line lines b l ≡ ok b' → Takes lines b l b'
apply_line-Takes lines b b' [] h =
    unfold apply_line olds news marked in ground (arith, append-nil b.new_lines)
apply_line-Takes lines b b' (c ∷ text) h = elim (Bool-cases (c == b' ')) [
  | inl e ↦ at_mark lines b b' text c b' ' e (context-Takes lines b b' text) h
  | inr e ↦ elim (Bool-cases (c == b'-')) [
    | inl f ↦ at_mark lines b b' text c b'-' f (delete-Takes lines b b' text) h
    | inr f ↦ elim (Bool-cases (c == b'+')) [
      | inl g ↦ at_mark lines b b' text c b'+' g (add-Takes lines b b' text) h
      | inr g ↦ absurd (apply_line-invalid lines b b' text c e f g h)
    ]
  ]
]

-- The loop succeeds only where the file has the lines that the hunk expects.
pub apply_lines_sound :
    (lines : List Text) (b b' : Body) (body : List Text)
    → apply_lines lines b body ≡ ok b'
    → All IsLine body
      × (drop b.cursor lines ≡ olds body ++ drop b'.cursor lines)
      × (b' ≡ advance b body)
unfolding apply_lines
apply_lines_sound lines b b' [] h =
    unfold olds news marked in ground (arith, append-nil b.new_lines)
apply_lines_sound lines b b' (l ∷ body) h =
    let (b₁, first, later) =
      >>=-eq-ok (apply_line lines b l) (λ b'. apply_lines lines b' body) b' h in
    let (line, taken, here) = apply_line-Takes lines b b₁ l first in
    let (body_lines, rest, there) = apply_lines_sound lines b₁ b' body later in
    (
      (line, body_lines),
      taken
          ∙ ap (λ r. olds (l ∷ []) ++ r) rest
          ∙ sym (append_assoc (olds (l ∷ [])) (olds body) (drop b'.cursor lines))
          ∙ ap (λ r. r ++ drop b'.cursor lines) (sym (olds-cons l body)),
      there ∙ ap (λ a. advance a body) here ∙ advance-advance b l body,
    )

apply_line_complete :
    (front back : List Text) (b : Body) (l : Text)
    → IsLine l
    → b.cursor ≡ length front
    → apply_line (front ++ (olds (l ∷ []) ++ back)) b l ≡ ok (advance b (l ∷ []))
unfolding apply_line olds news marked
apply_line_complete front back b [] h at = ground (arith, append-nil b.new_lines)
apply_line_complete front back b (c ∷ text) h at = elim h [
  | inl e ↦ rw (e, at) (ground (arith, line_is-at front text back))
  | inr (inl e) ↦ rw (e, at) (ground (arith, line_is-at front text back, append-nil b.new_lines))
  | inr (inr e) ↦ rw (e, at) (ground arith)
]

-- The loop does succeed there, and goes past just these lines.
pub apply_lines_complete :
    (front back : List Text) (b : Body) (body : List Text)
    → All IsLine body
    → b.cursor ≡ length front
    → apply_lines (front ++ (olds body ++ back)) b body ≡ ok (advance b body)
unfolding apply_lines
apply_lines_complete front back b [] h at =
    unfold olds news marked in ground (arith, append-nil b.new_lines)
apply_lines_complete front back b (l ∷ body) (line, h) at =
    let back' = olds body ++ back in
    let whole : front ++ (olds (l ∷ body) ++ back) ≡ front ++ (olds (l ∷ []) ++ back') =
      ap (λ o. front ++ (o ++ back)) (olds-cons l body)
      ∙ ap (λ o. front ++ o) (append_assoc (olds (l ∷ [])) (olds body) back) in
    let here : b.cursor + length (olds (l ∷ [])) ≡ length (front ++ olds (l ∷ [])) =
      omega (arith, length-append front (olds (l ∷ []))) in
    ap (λ ls. apply_lines ls b (l ∷ body)) whole
    ∙ ap (λ r. r >>= λ b'. apply_lines (front ++ (olds (l ∷ []) ++ back')) b' body)
        (apply_line_complete front back' b l line at)
    ∙ ap (λ ls. apply_lines ls (advance b (l ∷ [])) body)
        (sym (append_assoc front (olds (l ∷ [])) back'))
    ∙ apply_lines_complete (front ++ olds (l ∷ [])) back (advance b (l ∷ [])) body h here
    ∙ ap ok (advance-advance b l body)
