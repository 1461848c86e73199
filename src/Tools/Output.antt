-- ===== src/Tools/Output.antt =====
-- `truncateOutput` and `pickDelimiter`.
pub mod Digits
use krellin.Prelude.Int.{ℤ, pos, negsuc}
use krellin.Prelude.{
  ℕ, zero, suc, ◌+◌, ◌/◌, ◌%◌, ◌≤◌, ◌≡◌, refl, ap, ◌⊎◌, inl, inr, true, false, [], ◌∷◌, ◌++◌, arith,
  ltb, leb, if◌then◌else◌, length, take, length-append, length-take, Bool-cases, suc,
}
use krellin.Prelude.Text.{Text, codes, contains}

abbrev tool_output_limit : ℕ
tool_output_limit = 65536

abbrev truncated_mark : Text
truncated_mark = 10 ∷ codes "...[truncated]"

-- `truncateOutput` at a limit
unfoldable pub truncate_at : ℕ → Text → Text
truncate_at limit out = if leb (length out) limit then out else take limit out ++ truncated_mark

unfoldable pub truncate_output : Text → Text
truncate_output out = truncate_at tool_output_limit out

take-take-append : (n : ℕ) (xs ys : Text) → n ≤ length xs → take n (take n xs ++ ys) ≡ take n xs
take-take-append zero xs ys h = refl
take-take-append (suc n) [] ys h = absurd (omega arith)
take-take-append (suc n) (x ∷ xs) ys h = ap (λ t. x ∷ t) (take-take-append n xs ys (omega arith))

-- What is left of an output is at most 15 bytes longer than the limit, and it is the whole output
-- or begins with the first bytes of it, as many as the limit allows.
pub length-truncate_at :
    (limit : ℕ) (out : Text)
    → (length (truncate_at limit out) ≤ limit + 15)
      × (take limit (truncate_at limit out) ≡ take limit out)
unfolding truncate_at
length-truncate_at limit out = elim (Bool-cases (leb (length out) limit)) [
  | inl e ↦ rw e (ground arith, refl)
  | inr e ↦ rw e (
    omega (arith, length-append (take limit out) truncated_mark, length-take limit out),
    take-take-append limit out truncated_mark (ground arith),
  )
]

-- `strconv.Itoa` of a natural number; the fuel is the number itself.
unfoldable pub itoa_from : ℕ → ℕ → Text
itoa_from zero n = (48 + n) ∷ []
itoa_from (suc fuel) n =
    let front = itoa_from fuel (n / 10) in
    if ltb n 10 then (48 + n) ∷ [] else front ++ (48 + n % 10) ∷ []

unfoldable pub itoa : ℕ → Text
unfolding itoa_from
itoa n = itoa_from n n

-- `%d` of an integer
unfoldable pub itoa_ℤ : ℤ → Text
itoa_ℤ (pos n) = itoa n
itoa_ℤ (negsuc n) = 45 ∷ itoa (suc n)

abbrev delimiter_base : Text
delimiter_base = codes "KRELLIN_PATCH_EOF_"

-- The loop of `pickDelimiter` from `i` on, with the rounds that are left.
unfoldable pub pick_from : ℕ → ℕ → Text → Text
pick_from zero i content = delimiter_base ++ codes "X"
pick_from (suc rounds) i content =
    let later = pick_from rounds (i + 1) content in
    if contains content (delimiter_base ++ itoa i) then later else delimiter_base ++ itoa i

unfoldable pub pick_delimiter : Text → Text
pick_delimiter content = pick_from 1000 0 content

-- Every numbered delimiter from `i` on, as many as there are rounds, stands in the content.
abbrev AllTaken : ℕ → ℕ → Text → Type 0
AllTaken zero i content = Unit
AllTaken (suc rounds) i content =
    (contains content (delimiter_base ++ itoa i) ≡ true) × AllTaken rounds (i + 1) content

-- The delimiter that is picked does not stand in the content, unless all the numbered ones that are tried do.
pick_from-fresh :
    (rounds i : ℕ) (content : Text)
    → (contains content (pick_from rounds i content) ≡ false) ⊎ AllTaken rounds i content
unfolding pick_from
pick_from-fresh zero i content = inr tt
pick_from-fresh (suc rounds) i content = ground (arith, pick_from-fresh rounds (i + 1) content)
