-- ===== src/Client/Keys/Deletes/Twice.antt =====
-- Runs of keys in the list of providers, the last key first.
use mathlib.Core.Path.{subst}
use krellin.Prelude.{
  ℕ, ◌≡◌, ◌≢◌, refl, sym, ◌⊎◌, inl, inr, true, false, ◌&&◌, none, some, List, [], ◌∷◌, arith,
  length, if_both, ◌==◌, In, get_elem?, Option-cases,
}
use krellin.Prelude.Text.{Text, text_eq, text_eq_iff}
use krellin.Client.Widgets.{Widgets, Key, letter_d}
use krellin.Client.Model.{Model, Info, Effect, Outcome, done, panics, send_delete}
use krellin.Client.Window.{with_selected, delete_key, list_key}
use krellin.Client.Keys.Deletes.{Confirmed, list_key-Confirmed}

module _ (w : Widgets) where
  pub data Pressed (m : Model w) : List Key → Model w → Type 0 where
    start : Pressed m [] m
    press :
        {keys : List Key} {n : Model w}
        → Pressed m keys n
        → (k : Key) (after : Model w) (effects : List Effect)
        → list_key w k n ≡ some (done after effects)
        → Pressed m (k ∷ keys) after

  -- The provider of the name is the selected one.
  abbrev pub Selected : Text → Model w → Type 0
  Selected name n =
      (p : Info) × (get_elem? n.agents_providers n.agents_selected ≡ some p) × (p.name ≡ name)

  -- The last key was d on the provider of the name, and it has sent nothing.
  abbrev pub Asked : Model w → Text → List Key → Model w → Type 0
  Asked m name keys n =
      (older : List Key) × (before : Model w) × (keys ≡ letter_d ∷ older)
      × Pressed m older before
      × Selected name before
      × (list_key w letter_d before ≡ some (done n []))

  -- What d does where a provider is selected.
  AfterD : Model w → Outcome w → Type 0
  AfterD n panics = Unit
  AfterD n (done after effects) =
      (((after ≡ n) × (effects ≡ []))
        × ((p : Info) → get_elem? n.agents_providers n.agents_selected ≢ some p))
      ⊎ (Selected n.delete_name n
          × (after.delete_pending ≡ false)
          × (effects ≡ send_delete n.delete_name ∷ []))
      ⊎ (Selected after.delete_name n × Selected after.delete_name after × (effects ≡ []))

  length-get :
      {A : Type 0} (xs : List A) (i : ℕ) (a : A) → (length xs == 0) ≡ true → get_elem? xs i ≢ some a
  length-get [] i a e h = cc
  length-get (x ∷ xs) i a e h = ground arith

  letter_d-AfterD : (n : Model w) → AfterD n (with_selected w (delete_key w n) n)
  unfolding AfterD delete_key
  letter_d-AfterD n =
      if_both (AfterD n) (length n.agents_providers == 0) _ _
        (λ e. inl ((refl, refl), λ p. length-get n.agents_providers n.agents_selected p e))
        (λ e. elim (Option-cases (get_elem? n.agents_providers n.agents_selected)) [
          | inl e ↦ rw e tt
          | inr (p, e) ↦
              subst (λ o. AfterD n (elim o [ none ↦ panics | some q ↦ delete_key w n q ])) (sym e)
                (chosen p e)
        ])
    where
      chosen :
          (p : Info)
          → get_elem? n.agents_providers n.agents_selected ≡ some p
          → AfterD n (delete_key w n p)
      chosen p e =
          if_both (AfterD n) (n.delete_pending && text_eq n.delete_name p.name) _ _
            (λ h.
              let same : p.name ≡ n.delete_name =
                ground (arith, text_eq_iff n.delete_name p.name) in
              inr (inl ((p, e, same), refl, rw same refl)))
            (λ h. inr (inr ((p, e, refl), (p, e, refl), refl)))

  letter_d-done :
      (n after : Model w) (effects : List Effect)
      → list_key w letter_d n ≡ some (done after effects)
      → AfterD n (done after effects)
  unfolding list_key
  letter_d-done n after effects e =
      let same : with_selected w (delete_key w n) n ≡ done after effects = cc in
      subst (AfterD n) same (letter_d-AfterD n)

  -- Where a provider waits to be confirmed it is the selected one, and the last key was d on it.
  abbrev Armed : Model w → List Key → Model w → Type 0
  Armed m keys n = n.delete_pending ≡ true → Selected n.delete_name n × Asked m n.delete_name keys n

  key-cases : (k : Key) → (k ≡ letter_d) ⊎ (k ≢ letter_d)
  key-cases letter_d = inl refl
  key-cases k = inr (λ e. cc)

  confirmed :
      (k : Key) (n after : Model w) (effects : List Effect)
      → list_key w k n ≡ some (done after effects)
      → Confirmed k n (some (done after effects))
  confirmed k n after effects e = subst (Confirmed k n) e (list_key-Confirmed w k n)

  by_letter_d :
      (m : Model w) {keys : List Key} (n after : Model w) (effects : List Effect)
      → Pressed m keys n
      → Armed m keys n
      → list_key w letter_d n ≡ some (done after effects)
      → AfterD n (done after effects)
      → Armed m (letter_d ∷ keys) after
  unfolding AfterD
  by_letter_d m n after effects pressed armed e (inl ((same, f), nobody)) pending =
      let ((p, at, name), asked) =
        armed (subst (λ (a : Model w). a.delete_pending ≡ true) same pending) in
      absurd (nobody p at)
  by_letter_d m n after effects pressed armed e (inr (inl (s, off, f))) pending = cc
  by_letter_d m {keys} n after effects pressed armed e (inr (inr (was, is, f))) pending = (
    is,
    (keys, n, refl, pressed, was, subst (λ fs. list_key w letter_d n ≡ some (done after fs)) f e),
  )

  Pressed-Armed :
      (m : Model w) {keys : List Key} {n : Model w}
      → m.delete_pending ≡ false
      → Pressed m keys n
      → Armed m keys n
  Pressed-Armed m off start = λ pending. cc
  Pressed-Armed m off (press {keys} {n} pressed k after effects e) = elim (key-cases k) [
    | inl d ↦
        subst (λ j. Armed m (j ∷ keys) after) (sym d)
          (let e' = subst (λ j. list_key w j n ≡ some (done after effects)) d e in
            by_letter_d m n after effects pressed (Pressed-Armed m off pressed) e'
              (letter_d-done n after effects e'))
    | inr other ↦ λ pending. absurd (armless (confirmed k n after effects e).1 other pending)
  ]
    where
      armless :
          (k ≢ letter_d → after.delete_pending ≡ false)
          → k ≢ letter_d
          → after.delete_pending ≡ true
          → ⊥
      armless off_after other on = let off_now = off_after other in cc

  -- In a run of keys of the list that begins where no provider waits to be confirmed: a key that sends the deletion
  -- of a provider is d with that provider selected, and the key just before it was d too, with a provider of the same
  -- name selected, and sent nothing.
  pub list_key-Twice :
      (m : Model w) {keys : List Key} {n : Model w}
      → m.delete_pending ≡ false
      → Pressed m keys n
      → (k : Key) (after : Model w) (effects : List Effect) (name : Text)
      → list_key w k n ≡ some (done after effects)
      → In (send_delete name) effects
      → (k ≡ letter_d) × Selected name n × Asked m name keys n
  list_key-Twice m {keys} {n} off pressed k after effects name e sent =
      let (d, on, same, more) = (confirmed k n after effects e).0 name sent in
      let (selected, asked) = Pressed-Armed m off pressed on in
      (d, subst (λ t. Selected t n) same selected, subst (λ t. Asked m t keys n) same asked)
