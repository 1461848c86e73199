-- ===== src/Patch/Apply/Spec.antt =====
-- What applying a hunk means, apart from the loop: the lines that it expects give way to the lines
-- that it brings, and the rest of the file stays.
use native.Mathlib.Nat.{zero-add}
use krellin.Prelude.{
  ℕ, ◌+◌, ◌≡◌, refl, sym, ap, ◌∙◌, ◌↔◌, inl, inr, true, List, [], ◌∷◌, ◌++◌, All, arith, leb,
  length, take, drop, append_assoc, length-append, Bool-cases, take-append-drop, length-take,
  leb→le, le→leb,
}
use krellin.Prelude.Text.{Text}
use krellin.Prelude.Result.{Result, ok, >>=-eq-ok}
use krellin.Patch.{PatchError}
use krellin.Patch.Apply.{Body, apply_lines, start, apply_at}
use krellin.Patch.Apply.Lines.{olds, news, marked, IsLine, apply_lines_sound, apply_lines_complete}

-- A hunk at line `idx` turns a file into another one: the lines that it expects stand there and give
-- way to the lines that it brings.
abbrev pub Turns : List Text → ℕ → List Text → List Text → Type 0
Turns lines idx body lines' =
    All IsLine body
    × ((front back : List Text) × (length front ≡ idx)
        × (lines ≡ front ++ (olds body ++ back))
        × (lines' ≡ front ++ (news body ++ back)))

take-length-append : (front back : List Text) → take (length front) (front ++ back) ≡ front
take-length-append [] back = refl
take-length-append (f ∷ front) back = ap (λ r. f ∷ r) (take-length-append front back)

drop-length-append : (front back : List Text) → drop (length front) (front ++ back) ≡ back
drop-length-append [] back = refl
drop-length-append (f ∷ front) back = drop-length-append front back

drop-past :
    (front old back : List Text) → drop (length front + length old) (front ++ (old ++ back)) ≡ back
drop-past front old back =
    rw (← length-append front old, ← append_assoc front old back)
      (drop-length-append (front ++ old) back)

abbrev finish : List Text → ℕ → Body → Result PatchError (List Text × ℕ × ℕ)
finish lines idx b = ok (take idx lines ++ (b.new_lines ++ drop b.cursor lines), b.added, b.removed)

pub apply_at_sound :
    (lines : List Text) (idx : ℕ) (body : List Text) (r : List Text × ℕ × ℕ)
    → apply_at lines idx body ≡ ok r
    → Turns lines idx body r.0 × (r.1 ≡ marked b'+' body) × (r.2 ≡ marked b'-' body)
unfolding apply_at
apply_at_sound lines idx body r h = elim (Bool-cases (leb idx (length lines))) [
  | inr e ↦ absurd (ground arith)
  | inl e ↦
      let (b, run, done) =
        >>=-eq-ok (apply_lines lines (start idx) body) (finish lines idx) r (rw e at h) in
      let (ls, rest, final) = apply_lines_sound lines (start idx) b body run in
      (
        (
          ls,
          (
            take idx lines,
            drop b.cursor lines,
            omega (arith, length-take idx lines, leb→le idx (length lines) e),
            sym (take-append-drop idx lines) ∙ ap (λ q. take idx lines ++ q) rest,
            ground arith,
          ),
        ),
        ground arith,
        ground arith,
      )
]

pub apply_at_complete :
    (front back body : List Text)
    → All IsLine body
    → apply_at (front ++ (olds body ++ back)) (length front) body
      ≡ ok (front ++ (news body ++ back), marked b'+' body, marked b'-' body)
unfolding apply_at
apply_at_complete front back body h =
    let lines = front ++ (olds body ++ back) in
    let fits : leb (length front) (length lines) ≡ true =
      le→leb _ _ (omega (arith, length-append front (olds body ++ back))) in
    rw (fits, apply_lines_complete front back (start (length front)) body h refl)
      (λ i. ok (
        take-length-append front (olds body ++ back) i
            ++ (news body ++ drop-past front (olds body) back i),
        zero-add (marked b'+' body) i,
        zero-add (marked b'-' body) i,
      ))

-- `applyHunks` applies one hunk as described: it succeeds with these lines exactly where the hunk
-- turns the lines of the file into them, and it counts the additions and the removals.
pub apply_at-Turns :
    (lines : List Text) (idx : ℕ) (body lines' : List Text)
    → (apply_at lines idx body ≡ ok (lines', marked b'+' body, marked b'-' body))
      ↔ Turns lines idx body lines'
apply_at-Turns lines idx body lines' = (
  λ h. (apply_at_sound lines idx body (lines', marked b'+' body, marked b'-' body) h).0,
  λ (ls, (front, back, at, old, new)). rw (old, ← at, new) (apply_at_complete front back body ls),
)
