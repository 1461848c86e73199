-- ===== src/Prelude/Dict.antt =====
-- A Go map with string keys, as an association list with one entry for each key.
use krellin.Prelude.{
  ◌≡◌, refl, Option, none, some, List, [], ◌∷◌, arith, if◌then◌else◌, ap, ◌⊎◌, inl, inr, In,
  Bool-cases,
}
use krellin.Prelude.Text.{Text, text_eq, text_eq_iff}

abbrev pub Dict : Type 0 → Type 0
Dict V = List (Text × V)

module _ {V : Type 0} where
  -- `v, ok := m[k]`
  unfoldable pub lookup : Text → Dict V → Option V
  lookup k [] = none
  lookup k ((j, v) ∷ m) = if text_eq k j then some v else lookup k m

  -- `m[k] = v`
  unfoldable pub insert : Text → V → Dict V → Dict V
  insert k v [] = (k, v) ∷ []
  insert k v ((j, w) ∷ m) = if text_eq k j then (k, v) ∷ m else (j, w) ∷ insert k v m

  -- `delete(m, k)`
  unfoldable pub remove : Text → Dict V → Dict V
  remove k [] = []
  remove k ((j, w) ∷ m) = if text_eq k j then m else (j, w) ∷ remove k m

  pub lookup-insert :
      (k j : Text) (v : V) (m : Dict V)
      → lookup j (insert k v m) ≡ (if text_eq j k then some v else lookup j m)
  unfolding lookup insert
  lookup-insert k j v [] = refl
  lookup-insert k j v ((i, w) ∷ m) =
      ground (arith, text_eq_iff j k, text_eq_iff k i, text_eq_iff j i, lookup-insert k j v m)

-- Entries of a map that an insertion changes.
field₀ : {a b c e : Text} → ◌≡◌ {A = Text × Text} (a, b) (c, e) → a ≡ c
field₀ h = ap (λ (x : Text × Text). x.0) h

field₁ : {a b c e : Text} → ◌≡◌ {A = Text × Text} (a, b) (c, e) → b ≡ e
field₁ h = ap (λ (x : Text × Text). x.1) h

pub In-insert : (k : Text) (v : Text) (m : Dict Text) → lookup k m ≡ none → In (k, v) (insert k v m)
unfolding lookup insert
In-insert k v [] h = inl refl
In-insert k v ((j, w) ∷ m) h = elim (Bool-cases (text_eq k j)) [
  | inl e ↦ absurd (ground arith)
  | inr e ↦ rw e (inr (In-insert k v m (rw e at h)))
]

pub In-insert_old :
    (k v f o : Text) (m : Dict Text) → lookup k m ≡ none → In (f, o) m → In (f, o) (insert k v m)
unfolding lookup insert
In-insert_old k v f o [] h at = elim at [ ]
In-insert_old k v f o ((j, w) ∷ m) h at = elim (Bool-cases (text_eq k j)) [
  | inl e ↦ absurd (ground arith)
  | inr e ↦ rw e (elim at [
    | inl here ↦ inl here
    | inr later ↦ inr (In-insert_old k v f o m (rw e at h) later)
  ])
]

pub In-insert_new :
    (k v f o : Text) (m : Dict Text) → In (f, o) (insert k v m) → ((f ≡ k) × (o ≡ v)) ⊎ In (f, o) m
unfolding insert
In-insert_new k v f o [] (inl e) = inl (field₀ e, field₁ e)
In-insert_new k v f o [] (inr at) = elim at [ ]
In-insert_new k v f o ((j, w) ∷ m) at = elim (Bool-cases (text_eq k j)) [
  | inl e ↦ elim (rw e at at) [
    | inl here ↦ inl (field₀ here, field₁ here)
    | inr later ↦ inr (inr later)
  ]
  | inr e ↦ elim (rw e at at) [
    | inl here ↦ inr (inl here)
    | inr later ↦ elim (In-insert_new k v f o m later) [
      | inl new ↦ inl new
      | inr old ↦ inr (inr old)
    ]
  ]
]

pub In-lookup : {V : Type 0} (k : Text) (v : V) (m : Dict V) → lookup k m ≡ some v → In (k, v) m
unfolding lookup
In-lookup k v [] h = cc
In-lookup k v ((j, w) ∷ m) h = elim (Bool-cases (text_eq k j)) [
  | inl e ↦ inl (ground (arith, text_eq_iff k j))
  | inr e ↦ inr (In-lookup k v m (rw e at h))
]

pub lookup-not_In :
    {V : Type 0} (k : Text) (v : V) (m : Dict V) → lookup k m ≡ none → In (k, v) m → ⊥
unfolding lookup
lookup-not_In k v [] h at = at
lookup-not_In k v ((j, w) ∷ m) h (inl e) =
    let s : k ≡ j = ap (λ x. x.0) e in ground (arith, text_eq_iff k j)
lookup-not_In k v ((j, w) ∷ m) h (inr at) = elim (Bool-cases (text_eq k j)) [
  | inl e ↦ ground arith
  | inr e ↦ lookup-not_In k v m (rw e at h) at
]
