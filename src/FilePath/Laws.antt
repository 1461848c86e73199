-- ===== src/FilePath/Laws.antt =====
-- What `Clean` leaves of a path.
use krellin.Prelude.{
  ◌≡◌, refl, sym, ap, ◌∙◌, ◌≢◌, true, List, [], ◌∷◌, All, arith, reverse, reverse_aux,
  All-reverse_aux,
}
use mathlib.Core.List.{reverse-reverse}
use krellin.Prelude.Text.{Text, text_eq_iff, is_empty, has_prefix, split, join}
use krellin.Prelude.Text.Laws.{is_empty_iff, IsFree, split-IsFree, split-join, split-append}
use krellin.FilePath.{
  slash, dot, dotdot, climb, resolve_part, resolve_parts, parts_of, render, is_rooted, clean,
}

-- A part that names an entry of its directory: it is not empty, no dot, no dot-dot, and has no slash.
abbrev pub IsPlain : Text → Type 0
IsPlain part = (part ≢ []) × (part ≢ dot) × (part ≢ dotdot) × IsFree slash part

climb-IsPlain : (stack : List Text) → All IsPlain stack → All IsPlain (climb true stack)
unfolding climb
climb-IsPlain [] h = tt
climb-IsPlain (top ∷ below) h = ground (arith, text_eq_iff top dotdot)

resolve_part-IsPlain :
    (stack : List Text) (part : Text)
    → All IsPlain stack
    → IsFree slash part
    → All IsPlain (resolve_part true stack part)
unfolding resolve_part
resolve_part-IsPlain stack part h k =
    ground (
      arith,
      climb-IsPlain stack h,
      is_empty_iff part,
      text_eq_iff part dot,
      text_eq_iff part dotdot,
    )

resolve_parts-IsPlain :
    (stack parts : List Text)
    → All IsPlain stack
    → All (IsFree slash) parts
    → All IsPlain (resolve_parts true stack parts)
unfolding resolve_parts
resolve_parts-IsPlain stack [] h k = h
resolve_parts-IsPlain stack (part ∷ parts) h (k, ks) =
    resolve_parts-IsPlain (resolve_part true stack part) parts (resolve_part-IsPlain stack part h k)
      ks

-- Every part that a rooted path is left with is plain.
pub parts_of-IsPlain : (p : Text) → All IsPlain (parts_of true p)
unfolding parts_of
parts_of-IsPlain p =
    All-reverse_aux IsPlain (resolve_parts true [] (split slash p)) []
      (resolve_parts-IsPlain [] (split slash p) tt (split-IsFree slash p)) tt

resolve_part_of_IsPlain :
    (stack : List Text) (part : Text) → IsPlain part → resolve_part true stack part ≡ part ∷ stack
unfolding resolve_part
resolve_part_of_IsPlain stack part h =
    ground (arith, is_empty_iff part, text_eq_iff part dot, text_eq_iff part dotdot)

pub resolve_parts_of_IsPlain :
    (stack parts : List Text)
    → All IsPlain parts
    → resolve_parts true stack parts ≡ reverse_aux parts stack
unfolding resolve_parts
resolve_parts_of_IsPlain stack [] h = refl
resolve_parts_of_IsPlain stack (part ∷ parts) (h, hs) =
    ap (λ s. resolve_parts true s parts) (resolve_part_of_IsPlain stack part h)
    ∙ resolve_parts_of_IsPlain (part ∷ stack) parts hs

pub plain-IsFree : (parts : List Text) → All IsPlain parts → All (IsFree slash) parts
plain-IsFree [] h = tt
plain-IsFree (part ∷ parts) (h, hs) = (h.3, plain-IsFree parts hs)

pub resolve_part-empty : (stack : List Text) → resolve_part true stack [] ≡ stack
unfolding resolve_part is_empty
resolve_part-empty stack = refl

split-render :
    (parts : List Text)
    → All IsPlain parts
    → resolve_parts true [] (split slash (render true parts)) ≡ reverse parts
unfolding render resolve_parts
split-render [] h = unfold split join resolve_part is_empty in refl
split-render (part ∷ parts) h =
    ap (λ ps. resolve_parts true [] ps)
      (split-append slash [] (join slash (part ∷ parts)) tt
        ∙ ap (λ ps. [] ∷ ps) (split-join slash part parts (plain-IsFree (part ∷ parts) h)))
    ∙ ap (λ s. resolve_parts true s (part ∷ parts)) (resolve_part-empty [])
    ∙ resolve_parts_of_IsPlain [] (part ∷ parts) h

-- A rooted path that is made of plain parts is left with just these.
pub parts_of-render :
    (parts : List Text) → All IsPlain parts → parts_of true (render true parts) ≡ parts
unfolding parts_of
parts_of-render parts h = ap reverse (split-render parts h) ∙ reverse-reverse parts

-- A rooted path is cleaned to a slash and its plain parts.
pub clean_of_rooted : (p : Text) → is_rooted p ≡ true → clean p ≡ render true (parts_of true p)
unfolding clean
clean_of_rooted [] h = unfold is_rooted has_prefix in cc
clean_of_rooted (c ∷ p) h = unfold is_empty in rw h

pub clean-is_rooted : (p : Text) → is_rooted p ≡ true → is_rooted (clean p) ≡ true
clean-is_rooted p h = rw (clean_of_rooted p h) (unfold render is_rooted has_prefix in refl)

pub parts_of-clean : (p : Text) → is_rooted p ≡ true → parts_of true (clean p) ≡ parts_of true p
parts_of-clean p h =
    ap (parts_of true) (clean_of_rooted p h)
    ∙ parts_of-render (parts_of true p) (parts_of-IsPlain p)

-- Cleaning a rooted path a second time changes nothing.
clean_idempotent : (p : Text) → is_rooted p ≡ true → clean (clean p) ≡ clean p
clean_idempotent p h =
    clean_of_rooted (clean p) (clean-is_rooted p h)
    ∙ ap (render true) (parts_of-clean p h)
    ∙ sym (clean_of_rooted p h)

-- Two rooted paths are cleaned to the same text exactly when they are left with the same parts.
clean_injective :
    (p q : Text)
    → is_rooted p ≡ true
    → is_rooted q ≡ true
    → clean p ≡ clean q
    → parts_of true p ≡ parts_of true q
clean_injective p q hp hq e = sym (parts_of-clean p hp) ∙ ap (parts_of true) e ∙ parts_of-clean q hq
