-- ===== src/Prelude/Text/Laws.antt =====
-- Laws of prefixes, substrings, splitting and joining of texts.
use krellin.Prelude.{
  ℕ, ◌≡◌, refl, sym, ap, ◌∙◌, ◌≢◌, ◌↔◌, inl, inr, true, some, List, [], ◌∷◌, ◌++◌, arith,
  Bool-cases, All, reverse, append_assoc,
}
use mathlib.Core.List.{reverse-reverse, reverse-cons}
use krellin.Prelude.Text.{
  Text, is_empty, has_prefix, after_prefix, contains, split, cons_head, join, has_suffix,
}

pub is_empty_iff : (s : Text) → (is_empty s ≡ true) ↔ (s ≡ [])
unfolding is_empty
is_empty_iff [] = ground arith
is_empty_iff (c ∷ s) = ground arith

after_prefix-append : (p s : Text) → after_prefix (p ++ s) p ≡ some s
unfolding after_prefix
after_prefix-append [] [] = refl
after_prefix-append [] (c ∷ s) = refl
after_prefix-append (c ∷ p) s = ground (arith, after_prefix-append p s)

after_prefix-eq-some : (s p t : Text) → after_prefix s p ≡ some t → s ≡ p ++ t
unfolding after_prefix
after_prefix-eq-some [] [] t h = ground arith
after_prefix-eq-some (c ∷ s) [] t h = ground arith
after_prefix-eq-some [] (d ∷ p) t h = cc
after_prefix-eq-some (c ∷ s) (d ∷ p) t h = ground (arith, after_prefix-eq-some s p t)

pub has_prefix-append : (p s : Text) → has_prefix (p ++ s) p ≡ true
unfolding has_prefix
has_prefix-append [] [] = refl
has_prefix-append [] (c ∷ s) = refl
has_prefix-append (c ∷ p) s = ground (arith, has_prefix-append p s)

pub has_prefix-iff-after_prefix : (s p : Text) → has_prefix s p ≡ true → (t : Text) × (s ≡ p ++ t)
unfolding has_prefix
has_prefix-iff-after_prefix [] [] h = ([], refl)
has_prefix-iff-after_prefix (c ∷ s) [] h = (c ∷ s, refl)
has_prefix-iff-after_prefix [] (d ∷ p) h = cc
has_prefix-iff-after_prefix (c ∷ s) (d ∷ p) h =
    let (t, e) = has_prefix-iff-after_prefix s p (ground arith) in (t, ground arith)

-- A text contains every piece that stands in it.
contains-append : (a p b : Text) → contains (a ++ (p ++ b)) p ≡ true
unfolding contains
contains-append [] [] [] = refl
contains-append [] [] (c ∷ b) = refl
contains-append [] (c ∷ p) b = ground (arith, has_prefix-append (c ∷ p) b)
contains-append (c ∷ a) p b = ground (arith, contains-append a p b)

-- A text that contains a piece splits around it.
contains-split : (s p : Text) → contains s p ≡ true → (a : Text) × (b : Text) × (s ≡ a ++ (p ++ b))
unfolding contains
contains-split [] p h = let (t, e) = has_prefix-iff-after_prefix [] p h in ([], t, e)
contains-split (c ∷ s) p h = elim (Bool-cases (has_prefix (c ∷ s) p)) [
  | inl here ↦ let (t, e) = has_prefix-iff-after_prefix (c ∷ s) p here in ([], t, e)
  | inr later ↦ let (a, b, e) = contains-split s p (rw later at h) in (c ∷ a, b, ap (λ r. c ∷ r) e)
]

pub split-ne-nil : (sep : ℕ) (s : Text) → split sep s ≢ []
unfolding split
split-ne-nil sep [] h = cc
split-ne-nil sep (c ∷ s) h = ground (arith, split-ne-nil sep s)

join-cons_head :
    (sep c : ℕ) (ps : List Text) → ps ≢ [] → join sep (cons_head c ps) ≡ c ∷ join sep ps
unfolding join
join-cons_head sep c [] h = absurd (h refl)
join-cons_head sep c (p ∷ []) h = refl
join-cons_head sep c (p ∷ q ∷ ps) h = refl

join-nil-cons : (sep : ℕ) (ps : List Text) → ps ≢ [] → join sep ([] ∷ ps) ≡ sep ∷ join sep ps
unfolding join
join-nil-cons sep [] h = absurd (h refl)
join-nil-cons sep (p ∷ ps) h = refl

-- Joining the parts of a text gives the text back.
pub join-split : (sep : ℕ) (s : Text) → join sep (split sep s) ≡ s
unfolding split join
join-split sep [] = refl
join-split sep (c ∷ s) =
    unfold split in
    ground (
      arith,
      join-split sep s,
      split-ne-nil sep s,
      join-nil-cons sep (split sep s),
      join-cons_head sep c (split sep s),
    )

-- No part of a text holds the separator, and parts without it come back from their join.
abbrev pub IsFree : ℕ → Text → Type 0
IsFree sep [] = Unit
IsFree sep (c ∷ s) = (c ≢ sep) × IsFree sep s

cons_head-IsFree :
    (sep c : ℕ) (ps : List Text) → c ≢ sep → All (IsFree sep) ps → All (IsFree sep) (cons_head c ps)
cons_head-IsFree sep c [] h k = ((h, tt), tt)
cons_head-IsFree sep c (p ∷ ps) h k = ((h, k.0), k.1)

pub split-IsFree : (sep : ℕ) (s : Text) → All (IsFree sep) (split sep s)
unfolding split
split-IsFree sep [] = (tt, tt)
split-IsFree sep (c ∷ s) = ground (arith, split-IsFree sep s, cons_head-IsFree sep c (split sep s))

split_of_IsFree : (sep : ℕ) (p : Text) → IsFree sep p → split sep p ≡ p ∷ []
unfolding split
split_of_IsFree sep [] h = refl
split_of_IsFree sep (c ∷ p) (h, k) = ground (arith, split_of_IsFree sep p k)

pub split-append :
    (sep : ℕ) (p s : Text) → IsFree sep p → split sep (p ++ sep ∷ s) ≡ p ∷ split sep s
unfolding split
split-append sep [] s h = ground arith
split-append sep (c ∷ p) s (h, k) = ground (arith, split-append sep p s k)

pub split-join :
    (sep : ℕ) (p : Text) (ps : List Text)
    → All (IsFree sep) (p ∷ ps)
    → split sep (join sep (p ∷ ps)) ≡ p ∷ ps
unfolding join
split-join sep p [] (h, _) = split_of_IsFree sep p h
split-join sep p (q ∷ ps) (h, k) =
    split-append sep p (join sep (q ∷ ps)) h ∙ ap (λ r. p ∷ r) (split-join sep q ps k)

cons_head-append :
    (c : ℕ) (ps qs : List Text) → ps ≢ [] → cons_head c (ps ++ qs) ≡ cons_head c ps ++ qs
cons_head-append c [] qs h = absurd (h refl)
cons_head-append c (p ∷ ps) qs h = refl

-- Splitting at a separator that stands in the text.
pub split-append_sep :
    (sep : ℕ) (s t : Text) → split sep (s ++ sep ∷ t) ≡ split sep s ++ split sep t
unfolding split
split-append_sep sep [] t = ground arith
split-append_sep sep (c ∷ s) t = ground (
  arith,
  split-append_sep sep s t,
  cons_head-append c (split sep s) (split sep t) (split-ne-nil sep s),
)

-- Joining two lists of parts, neither of them empty.
pub join-append :
    (sep : ℕ) (p : Text) (ps : List Text) (q : Text) (qs : List Text)
    → join sep ((p ∷ ps) ++ q ∷ qs) ≡ join sep (p ∷ ps) ++ sep ∷ join sep (q ∷ qs)
unfolding join
join-append sep p [] q qs = refl
join-append sep p (r ∷ ps) q qs =
    ap (λ t. p ++ sep ∷ t) (join-append sep r ps q qs)
    ∙ sym (append_assoc p (sep ∷ join sep (r ∷ ps)) (sep ∷ join sep (q ∷ qs)))

pub has_suffix-snoc :
    (c : ℕ) (s : Text) → has_suffix s (c ∷ []) ≡ true → (t : Text) × (s ≡ t ++ c ∷ [])
unfolding has_suffix
has_suffix-snoc c s h =
    let (t, e) = has_prefix-iff-after_prefix (reverse s) (c ∷ []) h in
    (reverse t, sym (reverse-reverse s) ∙ ap reverse e ∙ reverse-cons c t)
