-- ===== src/Session/Answers/Enough.antt =====
-- The reading of answers ends: a second reading, of the first object alone, never asks for a third.
use mathlib.Core.Path.{subst}
use krellin.Prelude.{
  ℕ, suc, ◌≡◌, refl, sym, ap, ◌∙◌, inl, inr, true, not, ◌&&◌, Option, none, some, [], ◌∷◌,
  append-nil, arith, Bool-cases, Option-cases,
}
use krellin.Prelude.Text.{Text, text_eq, text_eq_refl, is_empty, has_prefix, trim_space}
use krellin.Prelude.Text.Laws.{is_empty_iff}
use krellin.Prelude.Text.Trim.{trim_space-braces}
use krellin.Tools.Scan.{open_brace, extract_first_json}
use krellin.Tools.Scan.Laws.{IsObject, extract_first_json-IsObject}
use krellin.Session.Answers.{
  Json, read_answer, read_normal, inner, tool_reply, fallback_final, plan_reply,
  parse_tool_response, parse_plan_response, or_else, unreadable, unplannable,
}
use krellin.Session.Decoding.{normalize_agent_response, wrapped}

normalize-brace :
    (t q : Text) → trim_space t ≡ open_brace ∷ q → normalize_agent_response t ≡ open_brace ∷ q
unfolding normalize_agent_response wrapped has_prefix is_empty
normalize-brace t q e = rw e refl

-- An object is left as it is, and is the first object in itself.
normalize-object : (r : Text) → IsObject r → normalize_agent_response r ≡ r
normalize-object r ((q, begins), (front, ends), first) =
    normalize-brace r q (trim_space-braces q front r begins ends ∙ begins) ∙ sym begins

extract-object : (r : Text) → IsObject r → extract_first_json r ≡ r
extract-object r (begins, ends, first) =
    subst (λ t. extract_first_json t ≡ r) (append-nil r) (first [])

not_empty :
    (object resp : Text)
    → object ≡ []
    → (not (is_empty object) && not (text_eq object resp)) ≡ true
    → ⊥
not_empty object resp h e = ground (arith, is_empty_iff object)

module _ {R : Type 0} (accept : Text → Option R) (last_resort : Text → R) (nothing : R) where
  abbrev read : ℕ → Text → Option R
  read = read_answer accept last_resort nothing

  -- The answer is there, and more fuel gives the same.
  abbrev Answers : (ℕ → ℕ) → Text → Type 0
  Answers fuel text = (r : R) × ((more : ℕ) → read (fuel more) text ≡ some r)

  -- An object is read with no need of another round.
  object_round :
      (resp : Text)
      → IsObject resp
      → (r : R) × ((again : Text → Option R)
          → read_normal accept last_resort nothing again resp ≡ some r)
  object_round resp object = elim (Bool-cases (is_empty resp)) [
    | inl e ↦ (nothing, λ again. rw e refl)
    | inr e ↦ elim (Option-cases (accept resp)) [
      | inr (a, f) ↦ (a, λ again. rw (e, f) refl)
      | inl f ↦ (
        last_resort resp,
        λ again. rw (e, f, extract-object resp object, text_eq_refl resp) (rw e refl),
      )
    ]
  ]

  object-Answers : (r : Text) → IsObject r → Answers (λ n. suc n) r
  unfolding read_answer
  object-Answers r object =
      let (a, always) = object_round r object in
      (
        a,
        λ more.
            ap (read_normal accept last_resort nothing (read more)) (normalize-object r object)
            ∙ always (read more),
      )

  inner-Answers :
      (resp object : Text)
      → object ≡ extract_first_json resp
      → (r : R) × ((more : ℕ)
          → inner accept last_resort nothing (read (suc more)) resp object ≡ some r)
  inner-Answers resp object is =
      elim (Bool-cases (not (is_empty object) && not (text_eq object resp))) [
        | inr e ↦ (last_resort resp, λ more. rw e refl)
        | inl e ↦ elim (extract_first_json-IsObject resp) [
          | inl none_there ↦ absurd (not_empty object resp (is ∙ none_there) e)
          | inr (before, after, stands, found) ↦
              let (a, always) = object-Answers object (subst IsObject (sym is) found) in
              (a, λ more. rw e (always more))
        ]
      ]

  -- Whatever the answer is, two rounds read it, and more fuel changes nothing.
  read_answer-Answers : (text : Text) → Answers (λ n. suc (suc n)) text
  unfolding read_answer
  read_answer-Answers text =
      let resp = normalize_agent_response text in
      elim (Bool-cases (is_empty resp)) [
        | inl e ↦ (nothing, λ more. rw e refl)
        | inr e ↦ elim (Option-cases (accept resp)) [
          | inr (a, f) ↦ (a, λ more. rw (e, f) refl)
          | inl f ↦
              let (a, always) = inner-Answers resp (extract_first_json resp) refl in
              (a, λ more. rw (e, f) (always more))
        ]
      ]

or_else-some : {A : Type 0} (o : Option A) (a b : A) → o ≡ some a → o ≡ some (or_else o b)
or_else-some none a b e = cc
or_else-some (some c) a b e = refl

-- The reading of tool answers and of plans needs two rounds at most: with any fuel of two or more the loop comes to an
-- end, with the answer that the functions give.
pub read_answer-eq-parse :
    (json : Json) (resp : Text) (more : ℕ)
    → (read_answer (tool_reply json) (fallback_final json) unreadable (suc (suc more)) resp
        ≡ some (parse_tool_response json resp))
      × (read_answer (plan_reply json) (λ text. unplannable) unplannable (suc (suc more)) resp
          ≡ some (parse_plan_response json resp))
unfolding parse_tool_response parse_plan_response
read_answer-eq-parse json resp more =
    let (a, always) = read_answer-Answers (tool_reply json) (fallback_final json) unreadable resp in
    let (b, plans) = read_answer-Answers (plan_reply json) (λ text. unplannable) unplannable resp in
    (
      always more ∙ sym (always 0) ∙ or_else-some _ a unreadable (always 0),
      plans more ∙ sym (plans 0) ∙ or_else-some _ b unplannable (plans 0),
    )
