-- ===== src/Session/Answers/Holds.antt =====
-- What holds of all that is accepted holds of what is read, by the rounds of the reading.
use krellin.Prelude.{ℕ, zero, suc, ◌≡◌, inl, inr, Bool, true, false, Option, none, some, Bool-cases}
use krellin.Prelude.Text.{Text, is_empty}
use krellin.Session.Answers.{read_answer, or_inner, inner_if, read_if, bound, filled, or_else}

abbrev pub AllOf : {R : Type 0} → (R → Type 0) → Option R → Type 0
AllOf P none = Unit
AllOf P (some r) = P r

-- What holds of every answer that is accepted, of the last resort and of no answer holds of what is read.
module _ {R : Type 0} (accept : Text → Option R) (last_resort : Text → R) (nothing : R)
    (P : R → Type 0) (accepted : (t : Text) → AllOf P (accept t))
    (resorted : (t : Text) → P (last_resort t)) (none_there : P nothing) where
  inner-AllOf :
      (b : Bool) (again : Text → Option R) (resp object : Text)
      → ((t : Text) → AllOf P (again t))
      → AllOf P (inner_if accept last_resort nothing b again resp object)
  inner-AllOf true again resp object h = h object
  inner-AllOf false again resp object h = resorted resp

  or_inner-AllOf :
      (o : Option R) (again : Text → Option R) (resp : Text)
      → ((t : Text) → AllOf P (again t))
      → AllOf P o
      → AllOf P (or_inner accept last_resort nothing again resp o)
  or_inner-AllOf (some r) again resp h k = k
  or_inner-AllOf none again resp h k = inner-AllOf _ again resp _ h

  read_normal-AllOf :
      (b : Bool) (again : Text → Option R) (resp : Text)
      → ((t : Text) → AllOf P (again t))
      → AllOf P (read_if accept last_resort nothing b again resp)
  read_normal-AllOf true again resp h = none_there
  read_normal-AllOf false again resp h = or_inner-AllOf (accept resp) again resp h (accepted resp)

  pub read_answer-AllOf :
      (fuel : ℕ) (text : Text) → AllOf P (read_answer accept last_resort nothing fuel text)
  unfolding read_answer
  read_answer-AllOf zero text = tt
  read_answer-AllOf (suc fuel) text =
      read_normal-AllOf _ (read_answer accept last_resort nothing fuel) _ (read_answer-AllOf fuel)

pub or_else-AllOf :
    {R : Type 0} (P : R → Type 0) (o : Option R) (r : R) → AllOf P o → P r → P (or_else o r)
or_else-AllOf P none r h k = k
or_else-AllOf P (some a) r h k = h

pub filled-AllOf : (o : Option Text) → AllOf (λ t. is_empty t ≡ false) (filled o)
filled-AllOf none = tt
filled-AllOf (some t) = elim (Bool-cases (is_empty t)) [ inl e ↦ rw e tt | inr e ↦ rw e e ]

pub bound-AllOf :
    {A B : Type 0} (Q : A → Type 0) (P : B → Type 0) (o : Option A) (f : A → Option B)
    → AllOf Q o
    → ((a : A) → Q a → AllOf P (f a))
    → AllOf P (bound o f)
bound-AllOf Q P none f h k = tt
bound-AllOf Q P (some a) f h k = k a h

pub bound_any-AllOf :
    {A B : Type 0} (P : B → Type 0) (o : Option A) (f : A → Option B)
    → ((a : A) → AllOf P (f a))
    → AllOf P (bound o f)
bound_any-AllOf P none f k = tt
bound_any-AllOf P (some a) f k = k a
