-- ===== src/Patch/Parse/Enough.antt =====
-- `parseUnifiedDiff`: the fuel of its loop.
use krellin.Prelude.{
  ℕ, zero, suc, ◌≤◌, ◌≡◌, ◌≢◌, ap, inl, inr, ◌||◌, List, [], ◌∷◌, arith, length, if_both,
  Option-cases,
}
use krellin.Prelude.Text.{Text, codes, has_prefix, trim_prefix, is_empty, split}
use krellin.Prelude.Result.{Result, ok, err, ◌>>=◌}
use krellin.Prelude.Dict.{Dict}
use krellin.Patch.{PatchError, out_of_fuel, Hunk}
use krellin.Patch.Parse.{
  Parsed, atoi, number, range_of, parse_range, header_of, parse_hunk_header, collect, file_mark,
  hunk_mark, parse_lines, some_file, parse_unified_diff,
}

abbrev Fine : {A : Type 0} → Result PatchError A → Type 0
Fine r = r ≢ err out_of_fuel

Fine-bind :
    {A B : Type 0} (r : Result PatchError A) (f : A → Result PatchError B)
    → Fine r
    → ((a : A) → Fine (f a))
    → Fine (r >>= f)
Fine-bind (ok a) f hr hf = hf a
Fine-bind (err e) f hr hf = λ same. hr (let k : e ≡ out_of_fuel = cc in ap (λ x. err x) k)

Fine-ok : {A : Type 0} (a : A) → Fine (ok a)
Fine-ok a = λ same. cc

number-Fine : (s : Text) → Fine (number s)
unfolding number
number-Fine s = elim (Option-cases (atoi s)) [
  | inl e ↦ rw (e, number) (λ same. cc)
  | inr (n, e) ↦ rw (e, number) (λ same. cc)
]

range_of-Fine : (parts : List Text) → Fine (range_of parts)
unfolding range_of
range_of-Fine [] = λ same. cc
range_of-Fine (start ∷ []) = Fine-bind (number start) _ (number-Fine start) (λ n. Fine-ok _)
range_of-Fine (start ∷ count ∷ more) =
    Fine-bind (number start) _ (number-Fine start)
      (λ n. Fine-bind (number count) _ (number-Fine count) (λ m. Fine-ok _))

parse_range-Fine : (r : Text) → Fine (parse_range r)
unfolding parse_range
parse_range-Fine r = range_of-Fine (split 44 r)

header_of-Fine : (parts : List Text) → Fine (header_of parts)
unfolding header_of
header_of-Fine [] = λ same. cc
header_of-Fine (first ∷ []) = λ same. cc
header_of-Fine (first ∷ second ∷ []) = λ same. cc
header_of-Fine (first ∷ second ∷ third ∷ more) =
    Fine-bind (parse_range (trim_prefix second (codes "-"))) _
      (parse_range-Fine (trim_prefix second (codes "-")))
      (λ old.
        Fine-bind (parse_range (trim_prefix third (codes "+"))) _
          (parse_range-Fine (trim_prefix third (codes "+"))) (λ new. λ same. cc))

length-collect : (lines : List Text) → length (collect lines).1 ≤ length lines
unfolding collect
length-collect [] = omega arith
length-collect (line ∷ rest) =
    if_both (λ (c : List Text × List Text). length c.1 ≤ suc (length rest))
      (has_prefix line hunk_mark || has_prefix line file_mark) ([], line ∷ rest)
      (line ∷ (collect rest).0, (collect rest).1) (λ _. omega arith)
      (λ _. omega (arith, length-collect rest))

parse_lines-Fine :
    (fuel : ℕ) (lines : List Text) (current : Text) (files : List Text) (hunks : Dict (List Hunk))
    → length lines ≤ fuel
    → Fine (parse_lines fuel lines current files hunks)
unfolding parse_lines parse_hunk_header
parse_lines-Fine zero [] current files hunks h = Fine-ok _
parse_lines-Fine zero (line ∷ rest) current files hunks h = absurd (omega arith)
parse_lines-Fine (suc fuel) [] current files hunks h = Fine-ok _
parse_lines-Fine (suc fuel) (line ∷ rest) current files hunks h =
    if_both Fine (has_prefix line file_mark) _ _
      (λ _. parse_lines-Fine fuel rest _ _ hunks (omega arith))
      (λ _.
        if_both Fine (has_prefix line hunk_mark) _ _
          (λ _.
            if_both Fine (is_empty current) _ _ (λ _. λ same. cc)
              (λ _. Fine-bind _ _ (header_of-Fine (split 32 line)) (λ k.
                parse_lines-Fine fuel (collect rest).1 current files _
                  (omega (arith, length-collect rest)))))
          (λ _. parse_lines-Fine fuel rest current files hunks (omega arith)))

some_file-Fine : (p : Parsed) → Fine (some_file p)
unfolding some_file
some_file-Fine ([], hunks) = λ same. cc
some_file-Fine (file ∷ files, hunks) = λ same. cc

-- The number of lines is fuel enough: of every diff the parser gives a result or one of its own errors.
pub parse_unified_diff-Fine : (diff : Text) → parse_unified_diff diff ≢ err out_of_fuel
unfolding parse_unified_diff
parse_unified_diff-Fine diff =
    Fine-bind (parse_lines (length (split 10 diff)) (split 10 diff) [] [] []) some_file
      (parse_lines-Fine (length (split 10 diff)) (split 10 diff) [] [] [] (omega arith))
      some_file-Fine
