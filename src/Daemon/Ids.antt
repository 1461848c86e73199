-- ===== src/Daemon/Ids.antt =====
-- The ids that the daemon gives, and the sessions found by them after one is registered.
use krellin.Prelude.{ℕ, ◌≡◌, ◌≢◌, refl, ap, ◌∙◌, none, some, [], ◌∷◌, arith, false}
use krellin.Prelude.Text.{Text, text_eq, text_eq_iff, text_eq_refl}
use krellin.Prelude.Dict.{Dict, lookup, insert, lookup-insert}
use krellin.Tools.Output.Digits.{itoa-injective}
use krellin.Daemon.{session_id}

after : Text → Text
after [] = []
after (c ∷ t) = t

pub session_id-injective : (m n : ℕ) → session_id m ≡ session_id n → m ≡ n
unfolding session_id after
session_id-injective m n h = itoa-injective m n (ap (λ t. after (after t)) h)

module _ {V : Type 0} (k : Text) (v : V) (m : Dict V) where
  pub lookup-insert_same : lookup k (insert k v m) ≡ some v
  lookup-insert_same = lookup-insert k k v m ∙ rw (text_eq_refl k) refl

  pub lookup-insert_other : (j : Text) → j ≢ k → lookup j (insert k v m) ≡ lookup j m
  lookup-insert_other j other =
      let e : text_eq j k ≡ false = ground (arith, text_eq_iff j k) in
      lookup-insert k j v m ∙ rw e refl

-- Two keys of which one is found and the other is not.
pub found_other :
    {V : Type 0} (j k : Text) (v : V) (m : Dict V) → lookup j m ≡ some v → lookup k m ≡ none → j ≢ k
found_other j k v m found missing same = cc
