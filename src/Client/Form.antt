-- ===== src/Client/Form.antt =====
-- The form for a provider in internal/client/tui_model.go.
pub mod Kept
use krellin.Prelude.{
  ℕ, zero, suc, ◌-◌, Bool, true, not, ◌&&◌, ◌||◌, Option, none, some, List, [], ◌∷◌, ◌++◌, ltb,
  ◌==◌, if◌then◌else◌, length, get_elem?, set, map,
}
use krellin.Prelude.Text.{Text, codes, text_eq, is_empty, trim_space}
use krellin.Protocol.{one_of}
use krellin.Agents.{AddPayload}
use krellin.Client.Widgets.{Widgets}
use krellin.Client.Model.{
  Model, Info, list_mode, add_mode, adding, editing, Outcome, done, panics, send_add,
}

abbrev known_types : List Text
known_types =
    codes "openai" ∷ codes "anthropic" ∷ codes "grok" ∷ codes "gemini" ∷ codes "llama" ∷ []

module _ (w : Widgets) where
  -- The field of the number has the focus, the others are blurred.
  unfoldable pub focus_at : ℕ → List w.Input → List w.Input
  focus_at i [] = []
  focus_at zero (field ∷ fields) = w.focus field ∷ map w.blur fields
  focus_at (suc i) (field ∷ fields) = w.blur field ∷ focus_at i fields

  -- `setAgentsAddField`; the -1 before the first field is 0 here, as it is there after the first test.
  unfoldable pub set_add_field : ℕ → Model w → Model w
  set_add_field idx m =
      let i = if ltb (length m.add_fields) idx then length m.add_fields else idx in
      record m { add_field_idx = i; add_fields = focus_at i m.add_fields }

  -- `newAgentsField`
  new_fields : List w.Input
  new_fields = map w.new_input (
      codes "provider-name"
      ∷ codes "openai|anthropic|grok|gemini|llama"
      ∷ codes "model-id"
      ∷ codes "paste key (optional)"
      ∷ codes "API_KEY_ENV"
      ∷ codes "https://... (optional)"
      ∷ [])

  filled_fields : Info → List w.Input
  filled_fields p =
      w.set_value p.name (w.new_input (codes "provider-name"))
      ∷ w.set_value p.kind (w.new_input (codes "openai|anthropic|grok|gemini|llama"))
      ∷ w.set_value p.model (w.new_input (codes "model-id"))
      ∷ w.new_input (codes "paste key (optional)")
      ∷ w.set_value p.api_key_env (w.new_input (codes "API_KEY_ENV"))
      ∷ w.set_value p.base_url (w.new_input (codes "https://... (optional)"))
      ∷ []

  -- `openAgentsAdd`
  unfoldable pub open_agents_add : Model w → Model w
  unfolding new_fields
  open_agents_add m = set_add_field 0 (record m {
    agents_mode = add_mode;
    add_kind = adding;
    add_err = [];
    add_enabled = true;
    add_fields = new_fields;
  })

  -- `openAgentsEdit`
  unfoldable pub open_agents_edit : Info → Model w → Model w
  unfolding filled_fields
  open_agents_edit p m = set_add_field 0 (record m {
    agents_mode = add_mode;
    add_kind = editing;
    add_err = [];
    add_enabled = p.enabled;
    add_fields = filled_fields p;
  })

  -- The form as it stands, if it has all its fields.
  unfoldable pub form_of : List w.Input → Bool → Option AddPayload
  form_of (f₀ ∷ f₁ ∷ f₂ ∷ f₃ ∷ f₄ ∷ f₅ ∷ fs) on = some (record {
    name = trim_space (w.value f₀);
    type_name = trim_space (w.value f₁);
    model = trim_space (w.value f₂);
    api_key = trim_space (w.value f₃);
    api_key_env = trim_space (w.value f₄);
    base_url = trim_space (w.value f₅);
    enabled = on;
  })
  form_of fs on = none

  abbrev refused : Text → Model w → Outcome w
  refused message m = done (record m { add_err = message }) []

  -- The tests of `submitAgentsAddCmd` on a form, and what it sends.
  unfoldable pub submit_form : AddPayload → Model w → Outcome w
  submit_form p m =
      let type_name = w.lower p.type_name in
      if is_empty p.name
        || (is_empty p.type_name
            || (is_empty p.model || (is_empty p.api_key && is_empty p.api_key_env)))
      then refused (codes "Name, type, model, and API key (or env) are required.") m
      else if not (one_of type_name known_types)
      then refused (codes "Type must be openai, anthropic, grok, gemini, or llama.") m
      else if text_eq type_name (codes "llama") && is_empty p.base_url
      then refused (codes "Base URL is required for llama.") m
      else done (record m { add_err = []; agents_mode = list_mode; agents_loading = true })
          (send_add (record p { type_name = type_name }) ∷ [])

  -- `submitAgentsAddCmd`
  unfoldable pub submit_add : Model w → Outcome w
  submit_add m = elim (form_of m.add_fields m.add_enabled) [
    | none ↦ panics
    | some p ↦ submit_form p m
  ]

  -- A key or a paste goes to the field of the number; a number past the fields goes nowhere.
  unfoldable pub in_field : (w.Input → w.Input) → Model w → Model w
  in_field change m = elim (get_elem? m.add_fields m.add_field_idx) [
    | none ↦ m
    | some field ↦ record m { add_fields = set m.add_fields m.add_field_idx (change field) }
  ]
