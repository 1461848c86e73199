-- ===== src/Repo/Resolved.antt =====
-- `ResolveRoot` gives the nearest directory with a `.git`.
use mathlib.Core.Path.{subst}
use mathlib.Core.List.{reverse-cons, reverse-reverse}
use krellin.Prelude.{
  ◌≤◌, ◌≡◌, refl, sym, ap, ◌∙◌, Bool, true, false, Option, none, some, List, [], ◌∷◌, arith, length,
  length-append, reverse, All, All-append_right, drop,
}
use krellin.Prelude.Text.{Text, has_prefix, is_empty}
use krellin.Prelude.Result.{ok}
use krellin.FilePath.{render, parts_of, clean, is_rooted}
use krellin.FilePath.Laws.{IsPlain, parts_of-IsPlain, parts_of-render, clean_of_rooted}
use krellin.FilePath.Dir.{dir_of, dir_of_root}
use krellin.Repo.{
  Disk, abs_path, abs_of, begin_at, found_or, loop_from, searched, find_root, resolve_root,
}
use krellin.Repo.Nearest.{up, reversed-IsPlain, dir_of-up, Nearest, find_from-Nearest}

-- The directory that the search begins in: the start itself, or the one that the file stands in.
abbrev pub names_at : Bool → List Text → List Text
names_at true parts = reverse parts
names_at false parts = drop 1 (reverse parts)

length-reverse : (ps : List Text) → length (reverse ps) ≡ length ps
length-reverse [] = refl
length-reverse (p ∷ ps) =
    ap (λ qs. length qs) (reverse-cons p ps)
    ∙ omega (arith, length-append (reverse ps) (p ∷ []), length-reverse ps)

names_at-IsPlain :
    (b : Bool) (parts : List Text) → All IsPlain parts → All IsPlain (names_at b parts)
names_at-IsPlain true parts h = reversed-IsPlain parts h
names_at-IsPlain false parts h = tail_plain (reverse parts) (reversed-IsPlain parts h)
  where
    tail_plain : (ps : List Text) → All IsPlain ps → All IsPlain (drop 1 ps)
    tail_plain [] k = tt
    tail_plain (p ∷ ps) (k, ks) = ks

dir_of_names : (names : List Text) → All IsPlain names → dir_of (up names) ≡ up (drop 1 names)
dir_of_names [] h = dir_of_root
dir_of_names (p ∷ rest) (h, k) = dir_of-up p rest h k

up-reverse : (parts : List Text) → up (reverse parts) ≡ render true parts
up-reverse parts = ap (render true) (reverse-reverse parts)

begin_at-names :
    (b : Bool) (parts : List Text)
    → All IsPlain parts
    → begin_at (render true parts) (some b) ≡ ok (up (names_at b parts))
begin_at-names true parts h = ap (λ p. ok p) (sym (up-reverse parts))
begin_at-names false parts h =
    ap (λ p. ok p)
      (ap dir_of (sym (up-reverse parts)) ∙ dir_of_names (reverse parts) (reversed-IsPlain parts h))

rendered-is_rooted : (parts : List Text) → is_rooted (render true parts) ≡ true
unfolding is_rooted has_prefix render
rendered-is_rooted parts = refl

abs_path-up :
    (disk : Disk) (names : List Text) → All IsPlain names → abs_path disk (up names) ≡ ok (up names)
unfolding abs_path
abs_path-up disk names h = rw (rendered-is_rooted (reverse names)) (
    ap (λ p. ok p)
      (clean_of_rooted (up names) (rendered-is_rooted (reverse names))
        ∙ ap (render true) (parts_of-render (reverse names) (reversed-IsPlain names h))))

rooted_filled : (p : Text) → is_rooted p ≡ true → is_empty p ≡ false
unfolding is_rooted has_prefix is_empty
rooted_filled [] h = cc
rooted_filled (c ∷ p) h = refl

module _ (disk : Disk) where
  loop_from-Nearest :
      (names : List Text)
      → All IsPlain names
      → (o : Option Text) × (loop_from disk (up names) ≡ some o) × Nearest disk names o
  loop_from-Nearest names h =
      let enough : length names ≤ length (parts_of true (up names)) = omega (
        arith,
        ap (λ ps. length ps) (parts_of-render (reverse names) (reversed-IsPlain names h)),
        length-reverse names,
      ) in
      find_from-Nearest disk names (length (parts_of true (up names))) h enough

  abs_of_found :
      (names : List Text) (o : Option Text)
      → All IsPlain names
      → Nearest disk names o
      → abs_of disk (found_or (some o)) ≡ found_or (some o)
  abs_of_found names none h nearest = refl
  abs_of_found names (some root) h (front, below, split_at, is, git, rest) =
      let plain = All-append_right IsPlain front below (subst (All IsPlain) split_at h) in
      ap (abs_path disk) is ∙ abs_path-up disk below plain ∙ ap (λ p. ok p) (sym is)

  -- From a rooted path to something that is there, the search comes to an end, and ResolveRoot gives the nearest directory
  -- with a `.git` at or above the start, or above the file that the start is; it gives the error `repo root not found`
  -- exactly where none of these directories has one.
  pub resolve_root-Nearest :
      (start : Text) (b : Bool)
      → is_rooted start ≡ true
      → disk.is_dir (clean start) ≡ some b
      → (o : Option Text) × (resolve_root disk start ≡ found_or (some o))
        × Nearest disk (names_at b (parts_of true start)) o
  unfolding resolve_root find_root abs_path
  resolve_root-Nearest start b rooted there =
      let parts = parts_of true start in
      let plain = parts_of-IsPlain start in
      let names_plain = names_at-IsPlain b parts plain in
      let (o, found, nearest) = loop_from-Nearest (names_at b parts) names_plain in
      let begun : begin_at (clean start) (disk.is_dir (clean start)) ≡ ok (up (names_at b parts)) =
        ap (begin_at (clean start)) there
        ∙ ap (λ p. begin_at p (some b)) (clean_of_rooted start rooted)
        ∙ begin_at-names b parts plain in
      (
        o,
        rw (rooted_filled start rooted, rooted)
            (ap (λ r. abs_of disk (searched disk r)) begun
              ∙ ap (λ r. abs_of disk (found_or r)) found
              ∙ abs_of_found (names_at b parts) o names_plain nearest),
        nearest,
      )
