-- ===== src/Client/Form/Kept.antt =====
-- The form of internal/client/tui_model.go keeps its fields.
use krellin.Prelude.{
  ℕ, zero, suc, ◌≤◌, ◌≡◌, refl, ◌∙◌, inl, inr, List, [], ◌∷◌, arith, length, length-set, length-map,
  ltb, get_elem?, Option-cases, if◌then◌else◌, some, Bool,
}
use mathlib.Core.Path.{subst}
use krellin.Agents.{AddPayload}
use krellin.Client.Widgets.{Widgets}
use krellin.Client.Model.{Model, Info, Mode, unset, list_mode, add_mode, AddMode}
use krellin.Client.Form.{
  focus_at, set_add_field, open_agents_add, open_agents_edit, form_of, submit_form, submit_add,
  in_field,
}
use krellin.Client.Valid.{HasFields, IsValid, Fine}

module _ (w : Widgets) where
  length-focus_at : (i : ℕ) (fields : List w.Input) → length (focus_at w i fields) ≡ length fields
  unfolding focus_at
  length-focus_at i [] = refl
  length-focus_at zero (f ∷ fields) = omega (arith, length-map fields w.blur)
  length-focus_at (suc i) (f ∷ fields) = omega (arith, length-focus_at i fields)

  HasFields-length :
      {A : Type 0} (mode : Mode) (fields other : List A)
      → length other ≡ length fields
      → HasFields mode fields
      → HasFields mode other
  HasFields-length unset fields other e h = tt
  HasFields-length list_mode fields other e h = tt
  HasFields-length add_mode fields other e h = omega arith

  -- The fields replaced by as many, and the number of the one in focus.
  refielded :
      (m : Model w) (i : ℕ) (fields : List w.Input)
      → IsValid m
      → length fields ≡ length m.add_fields
      → i ≤ length fields
      → IsValid (record m { add_field_idx = i; add_fields = fields })
  refielded m i fields v e h = record {
    selected = v.selected;
    recalled = v.recalled;
    formed = HasFields-length m.agents_mode m.add_fields fields e v.formed;
    placed = h;
    bounded = v.bounded;
    logged = v.logged;
    waiting = v.waiting;
  }

  pub set_add_field-IsValid : (i : ℕ) (m : Model w) → IsValid m → IsValid (set_add_field w i m)
  unfolding set_add_field
  set_add_field-IsValid i m v =
      let j : ℕ = if ltb (length m.add_fields) i then length m.add_fields else i in
      refielded m _ _ v (length-focus_at j m.add_fields)
        (ground (arith, length-focus_at j m.add_fields))

  pub in_field-IsValid :
      (change : w.Input → w.Input) (m : Model w) → IsValid m → IsValid (in_field w change m)
  unfolding in_field
  in_field-IsValid change m v = elim (Option-cases (get_elem? m.add_fields m.add_field_idx)) [
    | inl e ↦ rw (e, in_field) v
    | inr (field, e) ↦
        let len = length-set m.add_fields m.add_field_idx (change field) in
        rw (e, in_field) (refielded m _ _ v len (omega arith))
  ]

  submit_form-Fine : (p : AddPayload) (m : Model w) → IsValid m → Fine (submit_form w p m)
  unfolding submit_form
  submit_form-Fine p m v = ground arith

  -- A form with its six fields can be read.
  form_of-some :
      (fields : List w.Input) (on : Bool)
      → length fields ≡ 6
      → (p : AddPayload) × (form_of w fields on ≡ some p)
  unfolding form_of
  form_of-some [] on e = absurd (omega arith)
  form_of-some (f₀ ∷ []) on e = absurd (omega arith)
  form_of-some (f₀ ∷ f₁ ∷ []) on e = absurd (omega arith)
  form_of-some (f₀ ∷ f₁ ∷ f₂ ∷ []) on e = absurd (omega arith)
  form_of-some (f₀ ∷ f₁ ∷ f₂ ∷ f₃ ∷ []) on e = absurd (omega arith)
  form_of-some (f₀ ∷ f₁ ∷ f₂ ∷ f₃ ∷ f₄ ∷ []) on e = absurd (omega arith)
  form_of-some (f₀ ∷ f₁ ∷ f₂ ∷ f₃ ∷ f₄ ∷ f₅ ∷ fs) on e = (_, refl)

  pub submit_add-Fine : (m : Model w) → m.agents_mode ≡ add_mode → IsValid m → Fine (submit_add w m)
  unfolding submit_add
  submit_add-Fine m mode v =
      let six : length m.add_fields ≡ 6 = subst (λ k. HasFields k m.add_fields) mode v.formed in
      let (p, e) = form_of-some m.add_fields m.add_enabled six in
      rw (e, submit_add) (submit_form-Fine p m v)

  -- The form opened with its six fields.
  opened :
      (m : Model w) (fields : List w.Input) (kind : AddMode) (on : Bool)
      → IsValid m
      → length fields ≡ 6
      → IsValid (
          set_add_field w 0 (record m {
            agents_mode = add_mode;
            add_kind = kind;
            add_err = [];
            add_enabled = on;
            add_fields = fields;
          }))
  unfolding set_add_field
  opened m fields kind on v e = record {
    selected = v.selected;
    recalled = v.recalled;
    formed = length-focus_at _ fields ∙ e;
    placed =
        ground (arith, length-focus_at (if ltb (length fields) 0 then length fields else 0) fields);
    bounded = v.bounded;
    logged = v.logged;
    waiting = v.waiting;
  }

  pub open_agents_add-IsValid : (m : Model w) → IsValid m → IsValid (open_agents_add w m)
  unfolding open_agents_add
  open_agents_add-IsValid m v = opened m _ _ _ v refl

  pub open_agents_edit-IsValid :
      (p : Info) (m : Model w) → IsValid m → IsValid (open_agents_edit w p m)
  unfolding open_agents_edit
  open_agents_edit-IsValid p m v = opened m _ _ _ v refl
