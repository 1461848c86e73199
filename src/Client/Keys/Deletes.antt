-- ===== src/Client/Keys/Deletes.antt =====
-- The keys of the window of providers in internal/client/tui_model.go that delete one.
pub mod Twice
use krellin.Prelude.{
  ◌≡◌, ◌≢◌, refl, inl, inr, Bool, true, false, not, ◌&&◌, Option, none, some, [], ◌∷◌, arith,
  length, if_both, ◌==◌, In, get_elem?, Option-cases,
}
use krellin.Prelude.Text.{Text, text_eq, text_eq_iff}
use krellin.Client.Widgets.{Widgets, Key, esc, down, up, enter, space, letter_a, letter_e, letter_d}
use krellin.Client.Model.{
  Model, Info, Outcome, done, panics, send_delete, send_set_active, send_toggle,
}
use krellin.Client.Form.{set_add_field, open_agents_add, open_agents_edit}
use krellin.Client.Window.{disarmed, with_selected, delete_key, list_key}

-- No key but d, pressed while the provider of the name waits to be confirmed, sends its deletion; it waits no more
-- then, and it waits no more after any other key of the list.
abbrev pub Confirmed : {w : Widgets} → Key → Model w → Option (Outcome w) → Type 0
Confirmed k m none = Unit
Confirmed k m (some panics) = Unit
Confirmed k m (some (done after effects)) =
    ((name : Text)
      → In (send_delete name) effects
      → (k ≡ letter_d)
        × (m.delete_pending ≡ true)
        × (m.delete_name ≡ name)
        × (after.delete_pending ≡ false))
    × (k ≢ letter_d → after.delete_pending ≡ false)

module _ (w : Widgets) where
  selected-Confirmed :
      (k : Key) (m : Model w) (n : Model w) (act : Info → Outcome w)
      → Confirmed k m (some (done n []))
      → ((p : Info) → Confirmed k m (some (act p)))
      → Confirmed k m (some (with_selected w act n))
  selected-Confirmed k m n act h each =
      if_both (λ (o : Outcome w). Confirmed k m (some o)) (length n.agents_providers == 0) _ _
        (λ e. h)
        (λ e. elim (Option-cases (get_elem? n.agents_providers n.agents_selected)) [
          | inl none_there ↦ rw none_there tt
          | inr (p, there) ↦ rw there (each p)
        ])

  only_one : (name other : Text) → In (send_delete name) (send_delete other ∷ []) → name ≡ other
  only_one name other (inl e) = cc
  only_one name other (inr h) = absurd h

  not_active : (name other : Text) → In (send_delete name) (send_set_active other ∷ []) → ⊥
  not_active name other (inl e) = cc
  not_active name other (inr h) = h

  not_toggled :
      (name other : Text) (on : Bool) → In (send_delete name) (send_toggle other on ∷ []) → ⊥
  not_toggled name other on (inl e) = cc
  not_toggled name other on (inr h) = h

  delete_key-Confirmed : (m : Model w) (p : Info) → Confirmed letter_d m (some (delete_key w m p))
  unfolding delete_key
  delete_key-Confirmed m p =
      if_both (λ (o : Outcome w). Confirmed letter_d m (some o))
        (m.delete_pending && text_eq m.delete_name p.name) _ _
        (λ e. (
          λ name h. (
            refl,
            ground arith,
            ground (arith, only_one name p.name h, text_eq_iff m.delete_name p.name),
            refl,
          ),
          λ other. refl,
        ))
        (λ e. (λ name h. absurd h, λ other. absurd (other refl)))

  -- Of the keys of the list only d deletes, and only the provider that waits to be confirmed; no provider waits to be
  -- confirmed after that, or after any key of the list but d.
  pub list_key-Confirmed : (k : Key) (m : Model w) → Confirmed k m (list_key w k m)
  unfolding list_key set_add_field open_agents_add open_agents_edit
  list_key-Confirmed esc m = (λ name h. absurd h, λ other. refl)
  list_key-Confirmed up m = (λ name h. absurd h, λ other. refl)
  list_key-Confirmed down m = (λ name h. absurd h, λ other. refl)
  list_key-Confirmed enter m =
      selected-Confirmed enter m (disarmed w m) _ (λ name h. absurd h, λ other. refl)
        (λ p. (λ name h. absurd (not_active name p.name h), λ other. refl))
  list_key-Confirmed space m =
      selected-Confirmed space m (disarmed w m) _ (λ name h. absurd h, λ other. refl)
        (λ p. (λ name h. absurd (not_toggled name p.name (not p.enabled) h), λ other. refl))
  list_key-Confirmed letter_a m = (λ name h. absurd h, λ other. refl)
  list_key-Confirmed letter_e m =
      selected-Confirmed letter_e m (disarmed w m) _ (λ name h. absurd h, λ other. refl)
        (λ p. (λ name h. absurd h, λ other. refl))
  list_key-Confirmed letter_d m =
      selected-Confirmed letter_d m m _ (λ name h. absurd h, λ other. absurd (other refl))
        (λ p. delete_key-Confirmed m p)
  list_key-Confirmed k m = tt
