-- ===== src/Tools/Workspace.antt =====
-- `workspacePath`: the path that a tool call names, kept within /workspace.
use krellin.Prelude.{
  ◌≡◌, refl, sym, ap, ◌∙◌, Bool, true, false, ◌||◌, Option, none, some, List, [], ◌∷◌, ◌++◌, All,
  arith, if◌then◌else◌, Bool-cases, inl, inr,
}
use mathlib.Core.Path.{subst}
use krellin.Prelude.Text.{Text, codes, text_eq, text_eq_iff, is_empty, has_prefix, split, join}
use krellin.Prelude.Text.Laws.{has_prefix-append, has_prefix-iff-after_prefix}
use krellin.FilePath.{slash, clean, join_path, render, is_rooted, parts_of}
use krellin.FilePath.Laws.{
  IsPlain, parts_of-IsPlain, clean_of_rooted, clean-is_rooted, parts_of-render,
}
use krellin.FilePath.Under.{split-render_cons}

abbrev workspace_name : Text
workspace_name = codes "workspace"

abbrev pub workspace : Text
workspace = codes "/workspace"

-- `none` is the error "path must be within /workspace".
unfoldable pub workspace_path : Text → Option Text
workspace_path p =
    if is_empty p
    then some workspace
    else let cleaned =
        if has_prefix p (slash ∷ []) then clean p else clean (join_path workspace p) in
      if text_eq cleaned workspace || has_prefix cleaned (workspace ++ slash ∷ [])
      then some cleaned
      else none

-- The text of a rooted path that is made of plain parts, the first of them `workspace`.
abbrev pub IsInside : Text → Type 0
IsInside r = (rest : List Text) × All IsPlain rest × (r ≡ render true (workspace_name ∷ rest))

workspace_name-IsPlain : IsPlain workspace_name
workspace_name-IsPlain = (cc, cc, cc, omega arith)

tail-eq : {a b : Text} {as' bs : List Text} → a ∷ as' ≡ b ∷ bs → as' ≡ bs
tail-eq e = cc

or_right : {a b : Bool} → a ≡ false → a || b ≡ true → b ≡ true
or_right e h = ground arith

text_test-IsInside :
    (ps : List Text)
    → All IsPlain ps
    → text_eq (render true ps) workspace || has_prefix (render true ps) (workspace ++ slash ∷ [])
      ≡ true
    → IsInside (render true ps)
unfolding split render text_eq has_prefix
text_test-IsInside [] hp h = cc
text_test-IsInside (p ∷ ps) hp h = elim (Bool-cases (text_eq (render true (p ∷ ps)) workspace)) [
  | inl e ↦
      let q : [] ∷ p ∷ ps ≡ [] ∷ workspace_name ∷ [] =
        sym (split-render_cons p ps hp)
        ∙ ap (split slash) ((text_eq_iff (render true (p ∷ ps)) workspace).0 e) in
      ([], tt, ap (render true) (tail-eq q))
  | inr e ↦
      let (t, s) =
        has_prefix-iff-after_prefix (render true (p ∷ ps)) (workspace ++ slash ∷ [])
          (or_right e h) in
      let q : [] ∷ p ∷ ps ≡ [] ∷ workspace_name ∷ split slash t =
        sym (split-render_cons p ps hp) ∙ ap (split slash) s in
      (split slash t, (subst (All IsPlain) (tail-eq q) hp).1, ap (render true) (tail-eq q))
]

clean-IsInside :
    (p : Text)
    → is_rooted p ≡ true
    → text_eq (clean p) workspace || has_prefix (clean p) (workspace ++ slash ∷ []) ≡ true
    → IsInside (clean p)
clean-IsInside p hp h =
    let e = clean_of_rooted p hp in
    rw e (
      text_test-IsInside (parts_of true p) (parts_of-IsPlain p)
        (subst (λ c. text_eq c workspace || has_prefix c (workspace ++ slash ∷ []) ≡ true) e h))

accept-IsInside :
    (q r : Text)
    → is_rooted q ≡ true
    → (if text_eq (clean q) workspace || has_prefix (clean q) (workspace ++ slash ∷ [])
        then some (clean q)
        else none)
      ≡ some r
    → IsInside r
accept-IsInside q r hq h =
    elim (Bool-cases
      (text_eq (clean q) workspace || has_prefix (clean q) (workspace ++ slash ∷ []))) [
        | inl e ↦ let s : clean q ≡ r = ground arith in subst IsInside s (clean-IsInside q hq e)
        | inr e ↦ absurd (ground arith)
      ]

workspace-IsInside : IsInside workspace
unfolding render join
workspace-IsInside = ([], tt, refl)

joined-is_rooted : (p : Text) → is_rooted (join_path workspace p) ≡ true
unfolding join_path is_empty is_rooted has_prefix
joined-is_rooted p = clean-is_rooted (workspace ++ slash ∷ p) refl

-- Whatever path a tool call names, the path that is used has no dot-dot in it and is /workspace or
-- lies below it.
pub workspace_path-IsInside : (p r : Text) → workspace_path p ≡ some r → IsInside r
unfolding workspace_path is_rooted
workspace_path-IsInside p r h = elim (Bool-cases (is_empty p)) [
  | inl e ↦ let s : workspace ≡ r = ground arith in subst IsInside s workspace-IsInside
  | inr e ↦ elim (Bool-cases (has_prefix p (slash ∷ []))) [
    | inl f ↦ accept-IsInside p r f (rw (e, f) at h)
    | inr f ↦ accept-IsInside (join_path workspace p) r (joined-is_rooted p) (rw (e, f) at h)
  ]
]

clean-render :
    (parts : List Text) → All IsPlain parts → clean (render true parts) ≡ render true parts
clean-render parts h =
    clean_of_rooted (render true parts) (unfold render is_rooted has_prefix in refl)
    ∙ ap (render true) (parts_of-render parts h)

join_path-workspace : (p : Text) → join_path workspace p ≡ clean (workspace ++ slash ∷ p)
unfolding join_path is_empty
join_path-workspace p = refl

workspace-append :
    (part : Text) (parts : List Text)
    → workspace ++ slash ∷ join slash (part ∷ parts) ≡ render true (workspace_name ∷ part ∷ parts)
unfolding render join
workspace-append part parts = refl

joined-plain :
    (part : Text) (parts : List Text)
    → All IsPlain (part ∷ parts)
    → clean (join_path workspace (join slash (part ∷ parts)))
      ≡ render true (workspace_name ∷ part ∷ parts)
joined-plain part parts h =
    let q = render true (workspace_name ∷ part ∷ parts) in
    let once : clean q ≡ q =
      clean-render (workspace_name ∷ part ∷ parts) (workspace_name-IsPlain, h) in
    rw (join_path-workspace (join slash (part ∷ parts)), workspace-append part parts, once) once

join-no_slash :
    (part : Text) (parts : List Text)
    → All IsPlain (part ∷ parts)
    → (is_empty (join slash (part ∷ parts)) ≡ false)
      × (has_prefix (join slash (part ∷ parts)) (slash ∷ []) ≡ false)
unfolding join is_empty has_prefix
join-no_slash [] parts h = absurd (h.0.0 refl)
join-no_slash (c ∷ part) [] h = ground (arith, h.0.3)
join-no_slash (c ∷ part) (q ∷ parts) h = ground (arith, h.0.3)

inside-prefix :
    (part : Text) (parts : List Text)
    → has_prefix (render true (workspace_name ∷ part ∷ parts)) (workspace ++ slash ∷ []) ≡ true
unfolding render join
inside-prefix part parts = has_prefix-append (workspace ++ slash ∷ []) (join slash (part ∷ parts))

-- A relative path of plain parts is taken as it is, below /workspace.
workspace_path_of_plain :
    (part : Text) (parts : List Text)
    → All IsPlain (part ∷ parts)
    → workspace_path (join slash (part ∷ parts))
      ≡ some (render true (workspace_name ∷ part ∷ parts))
unfolding workspace_path
workspace_path_of_plain part parts h =
    let (some_byte, relative) = join-no_slash part parts h in
    rw (some_byte, relative, joined-plain part parts h) (ground (arith, inside-prefix part parts))
