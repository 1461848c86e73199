-- ===== src/Tools/Scan/Laws.antt =====
-- `extractFirstJSON`: where the extracted text stands, and how it is read again.
use krellin.Prelude.{
  ℕ, ◌+◌, ◌-◌, ◌≡◌, refl, sym, ap, ◌∙◌, ◌⊎◌, inl, inr, Bool, true, false, Option, none, some, [],
  ◌∷◌, ◌++◌, arith, ◌==◌, if◌then◌else◌, not, Bool-cases, Option-cases, ==_iff,
}
use mathlib.Core.Path.{subst}
use krellin.Prelude.Text.{Text, trim_space}
use krellin.Prelude.Text.Trim.{trim_space-braces}
use krellin.Tools.Scan.{
  open_brace, close_brace, from_brace, push, scan, scanned, extract_first_json,
}

push-eq-some :
    (c : ℕ) (o : Option Text) (r : Text)
    → push c o ≡ some r
    → (q : Text) × (o ≡ some q) × (r ≡ c ∷ q)
push-eq-some c none r h = cc
push-eq-some c (some q) r h = (q, refl, ground arith)

-- What was read is the front of the text, it ends in a closing brace, and reading it again, whatever
-- follows, gives it again.
abbrev Reads : ℕ → Bool → Bool → Text → Text → Type 0
Reads depth in_string escape s r =
    ((rest : Text) × (s ≡ r ++ rest))
    × ((front : Text) × (r ≡ front ++ close_brace ∷ []))
    × ((t : Text) → scan depth in_string escape (r ++ t) ≡ some r)

-- One byte further on.
Reads-step :
    (d d' : ℕ) (i e i' e' : Bool) (c : ℕ) (s r : Text)
    → ((t : Text) → scan d i e (c ∷ t) ≡ push c (scan d' i' e' t))
    → ((q : Text) → scan d' i' e' s ≡ some q → Reads d' i' e' s q)
    → scan d i e (c ∷ s) ≡ some r
    → Reads d i e (c ∷ s) r
Reads-step d d' i e i' e' c s r step ih h =
    let (q, found, same) = push-eq-some c (scan d' i' e' s) r (sym (step s) ∙ h) in
    let ((rest, whole), (front, ends), again) = ih q found in
    rw same (
      (rest, ap (λ u. c ∷ u) whole),
      (c ∷ front, ap (λ u. c ∷ u) ends),
      λ t. step (q ++ t) ∙ ap (push c) (again t),
    )

scan_close :
    (depth c : ℕ) (escape : Bool) (t : Text)
    → (c == close_brace) ≡ true
    → (depth - 1 == 0) ≡ true
    → scan depth false escape (c ∷ t) ≡ some (c ∷ [])
unfolding scan
scan_close depth c escape t e f = rw (e, f)

scan_inner :
    (depth c : ℕ) (escape : Bool) (t : Text)
    → (c == close_brace) ≡ true
    → (depth - 1 == 0) ≡ false
    → scan depth false escape (c ∷ t) ≡ push c (scan (depth - 1) false escape t)
unfolding scan
scan_inner depth c escape t e f = rw (e, f)

scan_onward :
    (depth c : ℕ) (escape : Bool) (t : Text)
    → (c == close_brace) ≡ false
    → scan depth false escape (c ∷ t)
      ≡ push c (scan (if c == open_brace then depth + 1 else depth) (c == 34) escape t)
unfolding scan
scan_onward depth c escape t e = rw e

scan-Reads :
    (depth : ℕ) (in_string escape : Bool) (s r : Text)
    → scan depth in_string escape s ≡ some r
    → Reads depth in_string escape s r
scan-Reads depth true escape [] r h = absurd (unfold scan in ground arith)
scan-Reads depth false escape [] r h = absurd (unfold scan in ground arith)
scan-Reads depth true true (c ∷ s) r h =
    Reads-step depth depth true true true false c s r (λ t. unfold scan in refl)
      (scan-Reads depth true false s) h
scan-Reads depth true false (c ∷ s) r h =
    Reads-step depth depth true false (not (c == 34)) (c == 92) c s r (λ t. unfold scan in refl)
      (scan-Reads depth (not (c == 34)) (c == 92) s) h
scan-Reads depth false escape (c ∷ s) r h = elim (Bool-cases (c == close_brace)) [
  | inr e ↦
      Reads-step depth (if c == open_brace then depth + 1 else depth) false escape (c == 34) escape
        c s r (λ t. scan_onward depth c escape t e)
        (scan-Reads (if c == open_brace then depth + 1 else depth) (c == 34) escape s) h
  | inl e ↦ elim (Bool-cases (depth - 1 == 0)) [
    | inr f ↦
        Reads-step depth (depth - 1) false escape false escape c s r
          (λ t. scan_inner depth c escape t e f) (scan-Reads (depth - 1) false escape s) h
    | inl f ↦
        let found : r ≡ c ∷ [] = ground (arith, scan_close depth c escape s e f) in
        rw found (
          (s, refl),
          ([], ground (arith, ==_iff c close_brace)),
          λ t. scan_close depth c escape t e f,
        )
  ]
]

-- The object that `from_brace` begins with, and what comes before.
from_brace-eq-some :
    (text s : Text)
    → from_brace text ≡ some s
    → ((before : Text) × (text ≡ before ++ s)) × ((q : Text) × (s ≡ open_brace ∷ q))
unfolding from_brace
from_brace-eq-some [] s h = cc
from_brace-eq-some (c ∷ text) s h = elim (Bool-cases (c == open_brace)) [
  | inl e ↦ (([], ground arith), (text, ground (arith, ==_iff c open_brace)))
  | inr e ↦
      let ((before, whole), brace) = from_brace-eq-some text s (rw e at h) in
      ((c ∷ before, ap (λ u. c ∷ u) whole), brace)
]

-- The text begins and ends with braces, and is extracted from itself, whatever follows it.
abbrev pub IsObject : Text → Type 0
IsObject r =
    ((q : Text) × (r ≡ open_brace ∷ q))
    × ((front : Text) × (r ≡ front ++ close_brace ∷ []))
    × ((after : Text) → extract_first_json (r ++ after) ≡ r)

scan_open-step :
    (t : Text) → scan 0 false false (open_brace ∷ t) ≡ push open_brace (scan 1 false false t)
unfolding scan
scan_open-step t = refl

extract-scanned :
    (q front r t : Text)
    → r ≡ open_brace ∷ q
    → r ≡ front ++ close_brace ∷ []
    → scan 0 false false t ≡ some r
    → (u : Text) → t ≡ open_brace ∷ u
    → extract_first_json t ≡ r
unfolding extract_first_json
extract-scanned q front r t e f h u b =
    rw b
      (subst (λ v. scanned (scan 0 false false v) ≡ r) b (rw h (trim_space-braces q front r e f)))

extract_no_brace : (text : Text) → from_brace text ≡ none → extract_first_json text ≡ []
unfolding extract_first_json
extract_no_brace text e = rw e

extract_no_end :
    (text s : Text)
    → from_brace text ≡ some s
    → scan 0 false false s ≡ none
    → extract_first_json text ≡ []
unfolding extract_first_json
extract_no_end text s e f = rw (e, f)

pub extract_found :
    (text s r : Text)
    → from_brace text ≡ some s
    → scan 0 false false s ≡ some r
    → trim_space r ≡ r
    → extract_first_json text ≡ r
unfolding extract_first_json
extract_found text s r e f k = rw (e, f, k)

scan_open-begins :
    (s q r : Text)
    → s ≡ open_brace ∷ q
    → scan 0 false false s ≡ some r
    → (u : Text) × (r ≡ open_brace ∷ u)
scan_open-begins s q r e f =
    let (u, _, same) =
      push-eq-some open_brace (scan 1 false false q) r
        (sym (scan_open-step q) ∙ ap (scan 0 false false) (sym e) ∙ f) in
    (u, same)

-- What is extracted from a text is nothing, or it stands in the text, is an object and is extracted
-- from itself.
pub extract_first_json-IsObject :
    (text : Text)
    → (extract_first_json text ≡ [])
      ⊎ ((before after : Text) × (text ≡ before ++ (extract_first_json text ++ after))
          × IsObject (extract_first_json text))
extract_first_json-IsObject text = elim (Option-cases (from_brace text)) [
  | inl e ↦ inl (extract_no_brace text e)
  | inr (s, e) ↦ elim (Option-cases (scan 0 false false s)) [
    | inl f ↦ inl (extract_no_end text s e f)
    | inr (r, f) ↦
        let ((before, whole), (q, begins)) = from_brace-eq-some text s e in
        let ((rest, w), (front, ends), again) = scan-Reads 0 false false s r f in
        let (u, b) = scan_open-begins s q r begins f in
        let found : extract_first_json text ≡ r =
          extract_found text s r e f (trim_space-braces u front r b ends) in
        inr (
          before,
          rest,
          rw found (whole ∙ ap (λ v. before ++ v) w),
          rw found (
            (u, b),
            (front, ends),
            λ after.
                extract-scanned u front r (r ++ after) b ends (again after) (u ++ after)
                  (ap (λ v. v ++ after) b),
          ),
        )
  ]
]
