-- ===== src/FilePath/Under.antt =====
-- One rooted path under another: the test by texts that `sameOrChild` and `workspacePath` make, and
-- what it says of the parts.
use mathlib.Core.List.{append-nil}
use mathlib.Core.Path.{subst}
use krellin.Prelude.{
  ◌≡◌, refl, sym, ap, ◌∙◌, ◌≢◌, true, false, List, [], ◌∷◌, ◌++◌, All, All-append_right, arith,
  append_assoc, Bool-cases, inl, inr,
}
use krellin.Prelude.Text.{Text, has_prefix, has_suffix, split, join}
use krellin.Prelude.Text.Laws.{
  split-append_sep, split-join, split-append, join-append, has_suffix-snoc, has_prefix-append,
  has_prefix-iff-after_prefix, split-ne-nil,
}
use krellin.FilePath.{slash, render}
use krellin.FilePath.Laws.{IsPlain, plain-IsFree}

-- The parts of `ps` begin with those of `rs`.
abbrev pub Under : List Text → List Text → Type 0
Under ps rs = (rest : List Text) × (ps ≡ rs ++ rest)

pub split-render_cons :
    (p : Text) (ps : List Text)
    → All IsPlain (p ∷ ps)
    → split slash (render true (p ∷ ps)) ≡ [] ∷ p ∷ ps
unfolding render
split-render_cons p ps h =
    split-append slash [] (join slash (p ∷ ps)) tt
    ∙ ap (λ qs. [] ∷ qs) (split-join slash p ps (plain-IsFree (p ∷ ps) h))

ends-plain :
    (qs : List Text) (p : Text) (ps : List Text)
    → All IsPlain (p ∷ ps)
    → qs ++ [] ∷ [] ≡ [] ∷ p ∷ ps
    → ⊥
ends-plain [] p ps h e = cc
ends-plain (q ∷ qs) p ps h e =
    let e' : qs ++ [] ∷ [] ≡ p ∷ ps = cc in
    (All-append_right IsPlain qs ([] ∷ []) (subst (All IsPlain) (sym e') h)).0.0 refl

-- Only the root ends in a slash.
pub render-no_suffix :
    (p : Text) (ps : List Text)
    → All IsPlain (p ∷ ps)
    → has_suffix (render true (p ∷ ps)) (slash ∷ []) ≡ false
unfolding split
render-no_suffix p ps h = elim (Bool-cases (has_suffix (render true (p ∷ ps)) (slash ∷ []))) [
  | inr e ↦ e
  | inl e ↦
      let (t, s) = has_suffix-snoc slash (render true (p ∷ ps)) e in
      absurd (
        ends-plain (split slash t) p ps h
          (sym (split_snoc t) ∙ ap (split slash) (sym s) ∙ split-render_cons p ps h))
]
  where
    split_snoc : (t : Text) → split slash (t ++ slash ∷ []) ≡ split slash t ++ [] ∷ []
    split_snoc t = split-append_sep slash t []

-- `qs` is not empty, so all but its last part lies in the first list.
Under-of_append : (ps rs qs : List Text) → qs ≢ [] → ps ++ [] ∷ [] ≡ rs ++ qs → Under ps rs
Under-of_append ps [] qs h e = (ps, refl)
Under-of_append [] (r ∷ []) qs h e = absurd (h cc)
Under-of_append [] (r ∷ s ∷ rs) qs h e = cc
Under-of_append (p ∷ ps) (r ∷ rs) qs h e =
    let e' : ps ++ [] ∷ [] ≡ rs ++ qs = cc in
    let e₀ : p ≡ r = cc in let (rest, u) = Under-of_append ps rs qs h e' in (rest, ground arith)

root-no_prefix :
    (r : Text) (rs : List Text)
    → All IsPlain (r ∷ rs)
    → ¬ (has_prefix (render true [] ++ slash ∷ []) (render true (r ∷ rs) ++ slash ∷ []) ≡ true)
unfolding render has_prefix
root-no_prefix [] rs h e = h.0.0 refl
root-no_prefix (c ∷ r) [] h e = ground (arith, h.0.3)
root-no_prefix (c ∷ r) (s ∷ rs) h e = ground (arith, h.0.3)

-- The text test, read as a statement about the parts.
pub prefix-Under :
    (ps : List Text) (r : Text) (rs : List Text)
    → All IsPlain ps
    → All IsPlain (r ∷ rs)
    → has_prefix (render true ps ++ slash ∷ []) (render true (r ∷ rs) ++ slash ∷ []) ≡ true
    → Under ps (r ∷ rs)
unfolding split
prefix-Under [] r rs hp hr e = absurd (root-no_prefix r rs hr e)
prefix-Under (p ∷ ps) r rs hp hr e =
    let (t, s) = has_prefix-iff-after_prefix _ _ e in
    let u : ([] ∷ p ∷ ps) ++ [] ∷ [] ≡ ([] ∷ r ∷ rs) ++ split slash t =
      ap (λ qs. qs ++ [] ∷ []) (sym (split-render_cons p ps hp))
      ∙ sym (split-append_sep slash (render true (p ∷ ps)) [])
      ∙ ap (split slash) s
      ∙ ap (split slash) (append_assoc (render true (r ∷ rs)) (slash ∷ []) t)
      ∙ split-append_sep slash (render true (r ∷ rs)) t
      ∙ ap (λ qs. qs ++ split slash t) (split-render_cons r rs hr) in
    Under-of_append (p ∷ ps) (r ∷ rs) (split slash t) (split-ne-nil slash t) cc

pub Under-prefix :
    (ps : List Text) (r : Text) (rs : List Text)
    → Under ps (r ∷ rs)
    → has_prefix (render true ps ++ slash ∷ []) (render true (r ∷ rs) ++ slash ∷ []) ≡ true
unfolding render
Under-prefix ps r rs ([], e) =
    rw (e, append-nil rs)
      (subst (λ s. has_prefix s (slash ∷ (join slash (r ∷ rs) ++ slash ∷ [])) ≡ true) (append-nil _)
        (has_prefix-append (slash ∷ (join slash (r ∷ rs) ++ slash ∷ [])) []))
Under-prefix ps r rs (q ∷ qs, e) =
    rw (e, join-append slash r rs q qs)
      (subst (λ s. has_prefix (slash ∷ s) (slash ∷ (join slash (r ∷ rs) ++ slash ∷ [])) ≡ true)
        (simp append_assoc)
        (has_prefix-append (slash ∷ (join slash (r ∷ rs) ++ slash ∷ []))
          (join slash (q ∷ qs) ++ slash ∷ [])))
