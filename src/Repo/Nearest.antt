-- ===== src/Repo/Nearest.antt =====
-- `FindRoot` finds the nearest directory with a `.git`.
use mathlib.Core.Path.{subst}
use mathlib.Core.List.{reverse-cons}
use krellin.Prelude.{
  ℕ, zero, suc, ◌≤◌, ◌≡◌, ◌≢◌, refl, sym, ap, ◌∙◌, true, false, Option, none, some, List, [], ◌∷◌,
  ◌++◌, arith, length, length-append, reverse, All, All-reverse_aux, Bool-cases, inl, inr,
}
use krellin.Prelude.Text.{Text, text_eq, text_eq_refl, text_eq_iff}
use krellin.FilePath.{render, parts_of}
use krellin.FilePath.Laws.{IsPlain, parts_of-render}
use krellin.FilePath.Dir.{dir_of, dir_of-render, dir_of_root}
use krellin.Repo.{Disk, has_git, look_at, unless_root, find_from}

-- The path of a directory, from its own name up to the root.
abbrev pub up : List Text → Text
up names = render true (reverse names)

cons_tail : {x y : Text} {xs ys : List Text} → x ∷ xs ≡ y ∷ ys → xs ≡ ys
cons_tail e = cc

pub reversed-IsPlain : (names : List Text) → All IsPlain names → All IsPlain (reverse names)
reversed-IsPlain names h = All-reverse_aux IsPlain names [] h tt

pub dir_of-up :
    (p : Text) (rest : List Text) → IsPlain p → All IsPlain rest → dir_of (up (p ∷ rest)) ≡ up rest
dir_of-up p rest h k =
    ap (λ ps. dir_of (render true ps)) (reverse-cons p rest)
    ∙ dir_of-render (reverse rest) p
        (subst (All IsPlain) (reverse-cons p rest) (reversed-IsPlain (p ∷ rest) (h, k)))
        (reversed-IsPlain rest k)

parent_differs :
    (p : Text) (rest : List Text)
    → IsPlain p
    → All IsPlain rest
    → text_eq (up rest) (up (p ∷ rest)) ≡ false
parent_differs p rest h k = elim (Bool-cases (text_eq (up rest) (up (p ∷ rest)))) [
  | inr e ↦ e
  | inl e ↦
      let same : up rest ≡ up (p ∷ rest) = (text_eq_iff (up rest) (up (p ∷ rest))).0 e in
      let parts : reverse rest ≡ reverse (p ∷ rest) =
        sym (parts_of-render (reverse rest) (reversed-IsPlain rest k))
        ∙ ap (parts_of true) same
        ∙ parts_of-render (reverse (p ∷ rest)) (reversed-IsPlain (p ∷ rest) (h, k)) in
      absurd (
        omega (
          arith,
          ap (λ ps. length ps) (parts ∙ reverse-cons p rest),
          length-append (reverse rest) (p ∷ []),
        ))
]

module _ (disk : Disk) where
  -- What is found from a directory on: a directory above it or itself with a `.git`, and none with one in between; or
  -- nothing, where none has one.
  abbrev pub Nearest : List Text → Option Text → Type 0
  Nearest names none =
      (front below : List Text) → names ≡ front ++ below → has_git disk (up below) ≡ false
  Nearest names (some root) =
      (front : List Text) × (below : List Text) × (names ≡ front ++ below)
      × (root ≡ up below)
      × (has_git disk root ≡ true)
      × ((f g : List Text) → front ≡ f ++ g → g ≢ [] → has_git disk (up (g ++ below)) ≡ false)

  above-none :
      (p : Text) (rest : List Text)
      → has_git disk (up (p ∷ rest)) ≡ false
      → Nearest rest none
      → Nearest (p ∷ rest) none
  above-none p rest missing h [] below e = subst (λ ns. has_git disk (up ns) ≡ false) e missing
  above-none p rest missing h (f ∷ front) below e = h front below (cons_tail e)

  above-some :
      (p : Text) (rest : List Text) (root : Text)
      → has_git disk (up (p ∷ rest)) ≡ false
      → Nearest rest (some root)
      → Nearest (p ∷ rest) (some root)
  above-some p rest root missing (front, below, split_at, is, git, between) =
      (p ∷ front, below, ap (λ ns. p ∷ ns) split_at, is, git, later)
    where
      later :
          (f g : List Text) → p ∷ front ≡ f ++ g → g ≢ [] → has_git disk (up (g ++ below)) ≡ false
      later [] g e some_g =
          subst (λ ns. has_git disk (up ns) ≡ false)
            (ap (λ ns. p ∷ ns) split_at ∙ ap (λ ns. ns ++ below) e) missing
      later (x ∷ f) g e some_g = between f g (cons_tail e) some_g

  above :
      (p : Text) (rest : List Text) (o : Option Text)
      → has_git disk (up (p ∷ rest)) ≡ false
      → Nearest rest o
      → Nearest (p ∷ rest) o
  above p rest none missing h = above-none p rest missing h
  above p rest (some root) missing h = above-some p rest root missing h

  found_here :
      (names : List Text) → has_git disk (up names) ≡ true → Nearest names (some (up names))
  found_here names git = ([], names, refl, refl, git, none_between)
    where
      none_between :
          (f g : List Text) → [] ≡ f ++ g → g ≢ [] → has_git disk (up (g ++ names)) ≡ false
      none_between [] g e some_g = absurd (some_g (sym e))
      none_between (x ∷ f) g e some_g = cc

  nothing_at_root : has_git disk (up []) ≡ false → Nearest [] none
  nothing_at_root missing [] below e = subst (λ ns. has_git disk (up ns) ≡ false) e missing
  nothing_at_root missing (f ∷ front) below e = cc

  find_from-above :
      (fuel : ℕ) (current parent : Text)
      → has_git disk current ≡ false
      → dir_of current ≡ parent
      → text_eq parent current ≡ false
      → find_from (suc fuel) disk current ≡ find_from fuel disk parent
  unfolding find_from
  find_from-above fuel current parent missing is differs =
      ap (λ b. look_at b (find_from fuel disk) current) missing
      ∙ ap (λ d. unless_root (text_eq d current) (find_from fuel disk) d) is
      ∙ ap (λ b. unless_root b (find_from fuel disk) parent) differs

  find_from-here :
      (fuel : ℕ) (current : Text)
      → has_git disk current ≡ true
      → find_from (suc fuel) disk current ≡ some (some current)
  unfolding find_from
  find_from-here fuel current e = ap (λ b. look_at b (find_from fuel disk) current) e

  find_from-root :
      (fuel : ℕ) → has_git disk (up []) ≡ false → find_from (suc fuel) disk (up []) ≡ some none
  unfolding find_from
  find_from-root fuel e =
      ap (λ b. look_at b (find_from fuel disk) (up [])) e
      ∙ ap (λ d. unless_root (text_eq d (up [])) (find_from fuel disk) d) dir_of_root
      ∙ ap (λ b. unless_root b (find_from fuel disk) (up [])) (text_eq_refl (up []))

  -- The loop comes to an end, at the nearest directory.
  pub find_from-Nearest :
      (names : List Text) (fuel : ℕ)
      → All IsPlain names
      → length names ≤ fuel
      → (o : Option Text) × (find_from (suc fuel) disk (up names) ≡ some o) × Nearest names o
  find_from-Nearest [] fuel plain enough = elim (Bool-cases (has_git disk (up []))) [
    | inl e ↦ (some (up []), find_from-here fuel (up []) e, found_here [] e)
    | inr e ↦ (none, find_from-root fuel e, nothing_at_root e)
  ]
  find_from-Nearest (p ∷ rest) zero plain enough = absurd (omega arith)
  find_from-Nearest (p ∷ rest) (suc fuel) (h, plain) enough =
      elim (Bool-cases (has_git disk (up (p ∷ rest)))) [
        | inl e ↦ (
          some (up (p ∷ rest)),
          find_from-here (suc fuel) (up (p ∷ rest)) e,
          found_here (p ∷ rest) e,
        )
        | inr e ↦
            let (o, later, nearest) = find_from-Nearest rest fuel plain (omega arith) in
            (
              o,
              find_from-above (suc fuel) (up (p ∷ rest)) (up rest) e (dir_of-up p rest h plain)
                    (parent_differs p rest h plain)
                  ∙ later,
              above p rest o e nearest,
            )
      ]
