-- ===== src/Agents/Store.antt =====
-- What a look-up finds after each change of the list of providers.
use krellin.Prelude.{◌≡◌, Bool, false, Option, none, some, List, [], ◌∷◌, arith, if◌then◌else◌}
use krellin.Prelude.Text.{Text, text_eq, text_eq_iff}
use krellin.Agents.{Provider, find_name, find_enabled, enable_first, remove_name, upsert}

abbrev switched : Bool → Option Provider → Option Provider
switched on none = none
switched on (some p) = some (record p { enabled = on })

pub find-enable_first :
    (n m : Text) (on : Bool) (ps : List Provider)
    → find_name n (enable_first m on ps)
      ≡ (if text_eq n m then switched on (find_name n ps) else find_name n ps)
unfolding find_name enable_first
find-enable_first n m on [] = ground arith
find-enable_first n m on (p ∷ ps) = ground (
  arith,
  text_eq_iff p.name m,
  text_eq_iff p.name n,
  text_eq_iff n m,
  find-enable_first n m on ps,
)

pub find-remove_name :
    (n m : Text) (ps : List Provider)
    → find_name n (remove_name m ps) ≡ (if text_eq n m then none else find_name n ps)
unfolding find_name remove_name
find-remove_name n m [] = ground arith
find-remove_name n m (p ∷ ps) =
    ground
      (arith, text_eq_iff p.name m, text_eq_iff p.name n, text_eq_iff n m, find-remove_name n m ps)

pub find-upsert :
    (n : Text) (new : Provider) (ps : List Provider)
    → find_name n (upsert new ps) ≡ (if text_eq n new.name then some new else find_name n ps)
unfolding find_name upsert
find-upsert n new [] = ground (arith, text_eq_iff new.name n, text_eq_iff n new.name)
find-upsert n new (p ∷ ps) = ground (
  arith,
  text_eq_iff p.name new.name,
  text_eq_iff p.name n,
  text_eq_iff n new.name,
  text_eq_iff new.name n,
  find-upsert n new ps,
)

pub find-name :
    (n : Text) (p : Provider) (ps : List Provider) → find_name n ps ≡ some p → p.name ≡ n
unfolding find_name
find-name n p [] h = cc
find-name n p (q ∷ ps) h = ground (arith, text_eq_iff q.name n, find-name n p ps)

pub find_enabled-remove_name :
    (m : Text) (p : Provider) (ps : List Provider)
    → find_enabled (remove_name m ps) ≡ some p
    → text_eq p.name m ≡ false
unfolding find_enabled remove_name
find_enabled-remove_name m p [] h = cc
find_enabled-remove_name m p (q ∷ ps) h = ground (arith, find_enabled-remove_name m p ps)
