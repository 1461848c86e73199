-- ===== src/Daemon/Refines.antt =====
-- The two tables of the daemon, its counter and the ids that are printed implement one map from roots to sessions.
use mathlib.Core.Path.{subst}
use krellin.Prelude.{
  ℕ, suc, ◌≤◌, ◌≡◌, ◌≢◌, refl, sym, ap, ◌∙◌, Option, none, some, List, [], ◌∷◌, arith, inl, inr,
  Bool-cases,
}
use krellin.Prelude.Text.{Text, is_empty, text_eq, text_eq_iff}
use krellin.Prelude.Dict.{Dict, lookup, insert}
use krellin.Prelude.Result.{Result, ok, err, Result-cases}
use krellin.Daemon.{
  Session, Daemon, new_daemon, session_id, register, launch, numbered, present, Factory,
  ensure_session_for_repo, kept, at_root,
}
use krellin.Daemon.Ids.{session_id-injective, lookup-insert_same, lookup-insert_other}

-- The specification: sessions are numbered as they are made, and a root has one from its first request on.
pub record Registry : Type 0 where
  pub count : ℕ
  pub numbers : Dict ℕ

abbrev pub new_registry : Registry
new_registry = record { count = 0; numbers = [] }

module _ {S : Type 0} where
  abbrev assigned : Text → Result Text Text × S → Registry → Result Text ℕ × Registry × S
  assigned root (err e, outside) r = (err e, r, outside)
  assigned root (ok own, outside) r = (
    ok (suc r.count),
    record { count = suc r.count; numbers = insert root (suc r.count) r.numbers },
    outside,
  )

  abbrev or_assigned : Option ℕ → Factory S → Text → Registry → S → Result Text ℕ × Registry × S
  or_assigned (some n) factory root r outside = (ok n, r, outside)
  or_assigned none factory root r outside = assigned root (factory root outside) r

  abbrev spec_at : Result Text Text → Factory S → Registry → S → Result Text ℕ × Registry × S
  spec_at (err e) factory r outside = (err e, r, outside)
  spec_at (ok root) factory r outside = or_assigned (lookup root r.numbers) factory root r outside

  -- The session of a path, made at the first request for its root.
  unfoldable pub get_or_make :
      (Text → S → Result Text Text) → Factory S → Text → Registry → S → Result Text ℕ × Registry × S
  get_or_make resolve factory path r outside = spec_at (resolve path outside) factory r outside

-- Requests one after another, and what they give.
unfoldable pub answers :
    {D A S : Type 0}
    → (Text → D → S → Result Text A × D × S)
    → List Text
    → D
    → S
    → List (Result Text A) × S
answers serve [] d s = ([], s)
answers serve (path ∷ paths) d s =
    let (a, d₁, s₁) = serve path d s in let (rest, s₂) = answers serve paths d₁ s₁ in (a ∷ rest, s₂)

abbrev number_of : Result Text Session → Result Text ℕ
number_of (ok s) = ok s.number
number_of (err e) = err e

unfoldable pub numbers_of : List (Result Text Session) → List (Result Text ℕ)
numbers_of [] = []
numbers_of (a ∷ rest) = number_of a ∷ numbers_of rest

abbrev nth_session : ℕ → Text → Session
nth_session n root = record { number = n; id = session_id n; repo_root = root }

-- A root with a number is found with the session of that number, another one is not found.
abbrev Entry : Daemon → ℕ → Text → Option ℕ → Type 0
Entry d count root none = lookup root d.by_repo ≡ none
Entry d count root (some n) =
    (n ≤ count)
    × (lookup root d.by_repo ≡ some (session_id n))
    × (lookup (session_id n) d.sessions ≡ some (nth_session n root))

abbrev Implements : Daemon → Registry → Type 0
Implements d r =
    (d.made ≡ r.count)
    × (d.counter ≡ r.count)
    × ((root : Text) → Entry d r.count root (lookup root r.numbers))

-- The factory leaves the choice of the id to the daemon.
abbrev Unnamed : {S : Type 0} → Factory S → Type 0
Unnamed {S} factory = (root : Text) (s t : S) (own : Text) → factory root s ≡ (ok own, t) → own ≡ []

module _ (d : Daemon) (count : ℕ) (root : Text) where
  abbrev next : Session
  next = nth_session (suc count) root

  abbrev grown : Daemon
  grown = launch next (register root next (record d { made = suc count; counter = suc count }))

  -- The entry of the root that was registered.
  Entry-same :
      (numbers : Dict ℕ)
      → Entry grown (suc count) root (lookup root (insert root (suc count) numbers))
  unfolding register launch
  Entry-same numbers = rw (lookup-insert_same root (suc count) numbers) (
    omega arith,
    lookup-insert_same root (session_id (suc count)) d.by_repo,
    lookup-insert_same (session_id (suc count)) next d.sessions,
  )

  -- The entry of another root.
  Entry-other :
      (j : Text) (o : Option ℕ) → j ≢ root → Entry d count j o → Entry grown (suc count) j o
  unfolding register launch
  Entry-other j none other h = lookup-insert_other root _ d.by_repo j other ∙ h
  Entry-other j (some n) other (small, id, at) = (
    omega arith,
    lookup-insert_other root _ d.by_repo j other ∙ id,
    lookup-insert_other (session_id (suc count)) next d.sessions (session_id n)
          (λ same. absurd (omega (arith, session_id-injective n (suc count) same)))
        ∙ at,
  )

  Entry-grown :
      (numbers : Dict ℕ)
      → ((j : Text) → Entry d count j (lookup j numbers))
      → (j : Text) → Entry grown (suc count) j (lookup j (insert root (suc count) numbers))
  Entry-grown numbers h j = elim (Bool-cases (text_eq j root)) [
    | inl e ↦
        let same : j ≡ root = (text_eq_iff j root).0 e in
        subst (λ i. Entry grown (suc count) i (lookup i (insert root (suc count) numbers)))
          (sym same) (Entry-same numbers)
    | inr e ↦
        let other : j ≢ root = λ same. ground (arith, text_eq_iff j root) in
        rw (lookup-insert_other root (suc count) numbers j other)
          (Entry-other j (lookup j numbers) other (h j))
  ]

joined :
    {A S : Type 0} {a b : A} {x y : List A × S}
    → a ≡ b
    → x ≡ y
    → ◌≡◌ {A = List A × S} (a ∷ x.0, x.1) (b ∷ y.0, y.1)
joined {b} {x} h k = rw h (ap (λ z. (b ∷ z.0, z.1)) k)

module _ {S : Type 0} (resolve : Text → S → Result Text Text) (factory : Factory S)
    (unnamed : Unnamed factory) where
  -- One request: the same answer and effect, and the tables implement the registry after it.
  abbrev Agrees : Result Text Session × Daemon × S → Result Text ℕ × Registry × S → Type 0
  Agrees (a, d, s) (b, r, t) = (number_of a ≡ b) × (s ≡ t) × Implements d r

  made-Agrees :
      (root : Text) (d : Daemon) (r : Registry) (outcome : Result Text Text × S)
      → ((own : Text) → outcome.0 ≡ ok own → own ≡ [])
      → Implements d r
      → Agrees (kept root outcome d) (assigned root outcome r)
  unfolding numbered is_empty register launch
  made-Agrees root d r (err e, s) blank h = (refl, refl, h)
  made-Agrees root d r (ok own, s) blank (same, id, tables) =
      rw (blank own refl)
        (rw same (rw id (refl, refl, (refl, refl, Entry-grown d r.count root r.numbers tables))))

  root-Agrees :
      (root : Text) (d : Daemon) (r : Registry) (s : S) (number : Option ℕ)
      → Implements d r
      → Entry d r.count root number
      → Agrees (at_root (ok root) (some factory) d s) (or_assigned number factory root r s)
  unfolding present session_id is_empty
  root-Agrees root d r s none h missing =
      let blank : (own : Text) → (factory root s).0 ≡ ok own → own ≡ [] =
        λ own e. unnamed root s ((factory root s).1) own (ap (λ a. (a, (factory root s).1)) e) in
      rw missing (made-Agrees root d r (factory root s) blank h)
  root-Agrees root d r s (some n) h (small, id, at) = rw id (rw at (refl, refl, h))

  ensure-Agrees :
      (path : Text) (d : Daemon) (r : Registry) (s : S)
      → Implements d r
      → Agrees
          (ensure_session_for_repo resolve (some factory) path d s)
          (get_or_make resolve factory path r s)
  unfolding ensure_session_for_repo get_or_make
  ensure-Agrees path d r s (made, counter, tables) = elim (Result-cases (resolve path s)) [
    | inl (root, at) ↦
        rw at (root-Agrees root d r s (lookup root r.numbers) (made, counter, tables) (tables root))
    | inr (e, at) ↦ rw at (refl, refl, (made, counter, tables))
  ]

  answers-Agrees :
      (paths : List Text) (d : Daemon) (r : Registry) (s : S)
      → Implements d r
      → let (given, s₁) = answers (ensure_session_for_repo resolve (some factory)) paths d s in
        (numbers_of given, s₁) ≡ answers (get_or_make resolve factory) paths r s
  unfolding answers numbers_of
  answers-Agrees [] d r s h = refl
  answers-Agrees (path ∷ paths) d r s h =
      let (same, left, h₁) = ensure-Agrees path d r s h in
      let (b, r₁, t) = get_or_make resolve factory path r s in
      let (a, d₁, s₁) = ensure_session_for_repo resolve (some factory) path d s in
      joined same (
        answers-Agrees paths d₁ r₁ s₁ h₁ ∙ ap (answers (get_or_make resolve factory) paths r₁) left)

  -- For a factory that leaves the ids to the daemon: requests for paths, served one after another, give the sessions
  -- that one map from roots to sessions gives, where a session is made at the first request for its root and an
  -- error of the search or of the factory is passed on and leaves the map; and the factory is called just as often.
  pub answers-get_or_make :
      (paths : List Text) (s : S)
      → let (given, s₁) =
          answers (ensure_session_for_repo resolve (some factory)) paths new_daemon s in
        (numbers_of given, s₁) ≡ answers (get_or_make resolve factory) paths new_registry s
  unfolding lookup
  answers-get_or_make paths s =
      answers-Agrees paths new_daemon new_registry s (refl, refl, (λ root. refl))
