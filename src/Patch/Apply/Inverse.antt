-- ===== src/Patch/Apply/Inverse.antt =====
-- `applyHunks` on a hunk with its marks exchanged.
use krellin.Prelude.{
  ℕ, ◌≡◌, refl, ap, inl, inr, List, [], ◌∷◌, ◌++◌, All, arith, ◌==◌, if◌then◌else◌, map, length,
}
use krellin.Prelude.Text.{Text}
use krellin.Prelude.Result.{ok}
use krellin.Patch.Apply.{apply_at}
use krellin.Patch.Apply.Lines.{olds, news, marked, IsLine}
use krellin.Patch.Apply.Spec.{apply_at_sound, apply_at_complete}

abbrev invert_line : Text → Text
invert_line [] = []
invert_line (c ∷ text) = (if c == b'+' then b'-' else if c == b'-' then b'+' else c) ∷ text

-- The hunk with additions and removals exchanged.
abbrev pub invert : List Text → List Text
invert body = map invert_line body

olds-invert : (body : List Text) → All IsLine body → olds (invert body) ≡ news body
unfolding olds news
olds-invert [] h = refl
olds-invert ([] ∷ body) h = olds-invert body h.1
olds-invert ((c ∷ text) ∷ body) (inl e, h) = rw e (ap (λ r. text ∷ r) (olds-invert body h))
olds-invert ((c ∷ text) ∷ body) (inr (inl e), h) = rw e (olds-invert body h)
olds-invert ((c ∷ text) ∷ body) (inr (inr e), h) = rw e (ap (λ r. text ∷ r) (olds-invert body h))

news-invert : (body : List Text) → All IsLine body → news (invert body) ≡ olds body
unfolding olds news
news-invert [] h = refl
news-invert ([] ∷ body) h = news-invert body h.1
news-invert ((c ∷ text) ∷ body) (inl e, h) = rw e (ap (λ r. text ∷ r) (news-invert body h))
news-invert ((c ∷ text) ∷ body) (inr (inl e), h) = rw e (ap (λ r. text ∷ r) (news-invert body h))
news-invert ((c ∷ text) ∷ body) (inr (inr e), h) = rw e (news-invert body h)

marked-invert :
    (body : List Text)
    → (marked b'+' (invert body) ≡ marked b'-' body)
      × (marked b'-' (invert body) ≡ marked b'+' body)
unfolding marked
marked-invert [] = (refl, refl)
marked-invert ([] ∷ body) = marked-invert body
marked-invert ((c ∷ text) ∷ body) = ground (arith, marked-invert body)

invert-IsLine : (body : List Text) → All IsLine body → All IsLine (invert body)
invert-IsLine [] h = tt
invert-IsLine ([] ∷ body) (_, h) = (tt, invert-IsLine body h)
invert-IsLine ((c ∷ text) ∷ body) (inl e, h) = (inl (rw e), invert-IsLine body h)
invert-IsLine ((c ∷ text) ∷ body) (inr (inl e), h) = (inr (inr (rw e)), invert-IsLine body h)
invert-IsLine ((c ∷ text) ∷ body) (inr (inr e), h) = (inr (inl (rw e)), invert-IsLine body h)

-- Whatever hunk was applied, its inverse applies at the same line, gives the old file back, and
-- exchanges the counts of additions and removals.
pub apply_at-invert :
    (lines : List Text) (idx : ℕ) (body lines' : List Text) (added removed : ℕ)
    → apply_at lines idx body ≡ ok (lines', added, removed)
    → apply_at lines' idx (invert body) ≡ ok (lines, removed, added)
apply_at-invert lines idx body lines' added removed h =
    let ((ls, (front, back, at, old, new)), plus, minus) =
      apply_at_sound lines idx body (lines', added, removed) h in
    let there : apply_at (front ++ (olds (invert body) ++ back)) (length front) (invert body)
        ≡ ok (
          front ++ (news (invert body) ++ back),
          marked b'+' (invert body),
          marked b'-' (invert body),
        ) =
      apply_at_complete front back (invert body) (invert-IsLine body ls) in
    rw (new, ← at, old, plus, minus)
      (rw (olds-invert body ls, news-invert body ls, (marked-invert body).0, (marked-invert body).1)
        at there)
