-- ===== src/Tools/Output/Digits.antt =====
-- Decimal numbers: `strconv.Itoa` gives different numbers different texts.
use krellin.Prelude.{
  ◌≢◌, if_both, ℕ, zero, suc, ◌≤◌, ◌≡◌, refl, ap, ◌+◌, ◌-◌, ◌*◌, ◌/◌, ◌%◌, [], ◌∷◌, ◌++◌, arith,
  ltb, inl, inr, Bool-cases,
}
use krellin.Prelude.Text.{Text}
use krellin.Prelude.Text.Laws.{IsFree}
use krellin.Tools.Output.{itoa, itoa_from}

-- The number that digits stand for, after those read so far.
value : ℕ → Text → ℕ
value acc [] = acc
value acc (c ∷ t) = value (acc * 10 + (c - 48)) t

value-append : (acc : ℕ) (s : Text) (c : ℕ) → value acc (s ++ c ∷ []) ≡ value acc s * 10 + (c - 48)
unfolding value
value-append acc [] c = refl
value-append acc (d ∷ s) c = value-append (acc * 10 + (d - 48)) s c

value-itoa_from : (fuel n : ℕ) → n ≤ fuel → value 0 (itoa_from fuel n) ≡ n
unfolding value itoa_from
value-itoa_from zero n h = omega arith
value-itoa_from (suc fuel) n h = elim (Bool-cases (ltb n 10)) [
  | inl e ↦ rw e (omega arith)
  | inr e ↦
      let small : n / 10 ≤ fuel = ground arith in
      rw e (
        omega (
          arith,
          value-append 0 (itoa_from fuel (n / 10)) (48 + n % 10),
          value-itoa_from fuel (n / 10) small,
        ))
]

pub itoa-injective : (m n : ℕ) → itoa m ≡ itoa n → m ≡ n
unfolding itoa
itoa-injective m n h =
    omega
      (arith, value-itoa_from m m (omega arith), value-itoa_from n n (omega arith), ap (value 0) h)

IsFree-snoc : (sep c : ℕ) (s : Text) → IsFree sep s → c ≢ sep → IsFree sep (s ++ c ∷ [])
IsFree-snoc sep c [] h k = (k, tt)
IsFree-snoc sep c (d ∷ s) (h, r) k = (h, IsFree-snoc sep c s r k)

itoa_from-IsFree : (fuel n : ℕ) → IsFree 10 (itoa_from fuel n)
unfolding itoa_from
itoa_from-IsFree zero n = (omega arith, tt)
itoa_from-IsFree (suc fuel) n =
    if_both (IsFree 10) (ltb n 10) _ _ (λ e. (omega arith, tt))
      (λ e. IsFree-snoc 10 (48 + n % 10) _ (itoa_from-IsFree fuel (n / 10)) (omega arith))

-- The digits of a number hold no line end.
pub itoa-IsFree : (n : ℕ) → IsFree 10 (itoa n)
unfolding itoa
itoa-IsFree n = itoa_from-IsFree n n
