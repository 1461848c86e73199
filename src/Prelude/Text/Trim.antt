-- ===== src/Prelude/Text/Trim.antt =====
-- What `TrimSpace` leaves alone.
use mathlib.Core.List.{reverse-append, reverse-reverse}
use krellin.Prelude.{◌≡◌, refl, sym, ap, ◌∙◌, [], ◌∷◌, ◌++◌, reverse}
use krellin.Prelude.Text.{Text, trim_front, trim_back, trim_space}

trim_front-brace : (q : Text) → trim_front (123 ∷ q) ≡ 123 ∷ q
unfolding trim_front
trim_front-brace q = refl

trim_back-brace : (q : Text) → trim_back (125 ∷ q) ≡ 125 ∷ q
unfolding trim_back
trim_back-brace q = refl

reversed : (front r : Text) → r ≡ front ++ 125 ∷ [] → reverse r ≡ 125 ∷ reverse front
reversed front r f = ap reverse f ∙ reverse-append front (125 ∷ [])

-- A text from an opening to a closing brace has no white space at its ends.
pub trim_space-braces : (q front r : Text) → r ≡ 123 ∷ q → r ≡ front ++ 125 ∷ [] → trim_space r ≡ r
unfolding trim_space
trim_space-braces q front r e f =
    ap (λ s. reverse (trim_back (reverse s))) (ap trim_front e ∙ trim_front-brace q ∙ sym e)
    ∙ ap (λ s. reverse (trim_back s)) (reversed front r f)
    ∙ ap reverse (trim_back-brace (reverse front) ∙ sym (reversed front r f))
    ∙ reverse-reverse r
