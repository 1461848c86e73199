-- ===== src/Agents/Sound.antt =====
-- What each handler of internal/session/handler.go does to the selection and the list of providers.
use krellin.Prelude.{
  ◌≡◌, refl, inl, inr, Bool, true, false, not, ◌&&◌, ◌||◌, Option, none, some, List, arith,
  if◌then◌else◌, Bool-cases, Option-cases, if_both,
}
use krellin.Prelude.Text.{Text, text_eq, text_eq_iff, is_empty}
use krellin.Prelude.Result.{Result, ok, err}
use krellin.Prelude.Dict.{insert}
use krellin.Agents.{
  Provider, Stores, World, AddPayload, Listing, AgentError, find_name, enable_first, remove_name,
  load_agents, type_named,
}
use krellin.Agents.Handlers.{
  set_active_agent, toggle_agent, add_agent, delete_agent, store_secret, provider_of, clear_active,
  delete_secret, known, save_provider, Request, add,
}
use krellin.Agents.Store.{find-enable_first, find-remove_name, find-upsert}

abbrev on_of : Option Provider → Bool
on_of none = false
on_of (some p) = p.enabled

-- The selected provider, where there is one, is stored and enabled.
abbrev pub consistent : List Provider → Text → Bool
consistent ps active = is_empty active || on_of (find_name active ps)

-- The selection can be read and written, and the list can be read.
pub record Steady (w : World) : Type 0 where
  pub loads : w.load_fails ≡ false
  pub selection_loads : w.selection_load_fails ≡ false
  pub selection_saves : w.selection_save_fails ≡ false

-- An `add` that puts a disabled provider in the place of the selected one.
abbrev pub disables : Request → Stores → Bool
disables (add p) s = text_eq s.active p.name && not p.enabled
disables _ s = false

-- The stores that an operation leaves are consistent.
abbrev pub Sound : Result AgentError Listing × Stores → Type 0
Sound r = consistent r.1.providers r.1.active ≡ true

pub set_active-Sound :
    (w : World) (name : Text) (s : Stores)
    → w.selection_save_fails ≡ false
    → consistent s.providers s.active ≡ true
    → Sound (set_active_agent w name s)
unfolding set_active_agent
set_active-Sound w name s f h =
    ground (arith, find-enable_first name name true s.providers, text_eq_iff name name)

clear_active-Sound :
    (w : World) (s : Stores) → w.selection_save_fails ≡ false → Sound (clear_active w s)
unfolding is_empty
clear_active-Sound w s f = if_both Sound w.selection_save_fails _ _ (λ t. cc) (λ _. refl)

switched-Sound :
    (w : World) (name : Text) (on : Bool) (s : Stores)
    → w.selection_save_fails ≡ false
    → consistent s.providers s.active ≡ true
    → Sound (
        let s₁ = record s { providers = enable_first name on s.providers } in
        if not on && text_eq s.active name then clear_active w s₁ else (load_agents w s₁, s₁))
switched-Sound w name true s f h =
    ground (arith, find-enable_first s.active name true s.providers, text_eq_iff s.active name)
switched-Sound w name false s f h =
    if_both Sound (text_eq s.active name) _ _ (λ _. clear_active-Sound w _ f)
      (λ e. ground (arith, find-enable_first s.active name false s.providers))

pub toggle-Sound :
    (w : World) (name : Text) (on : Bool) (s : Stores)
    → w.selection_load_fails ≡ false
    → w.selection_save_fails ≡ false
    → consistent s.providers s.active ≡ true
    → Sound (toggle_agent w name on s)
unfolding toggle_agent
toggle-Sound w name on s l f h =
    if_both Sound (is_empty name) _ _ (λ _. h)
      (λ _.
        if_both Sound (not w.configured) _ _ (λ _. h)
          (λ _.
            if_both Sound w.load_fails _ _ (λ _. h)
              (λ _.
                if_both Sound (not (known name s)) _ _ (λ _. h)
                  (λ _.
                    if_both Sound w.save_fails _ _ (λ _. h)
                      (λ _.
                        if_both Sound w.selection_load_fails _ _ (λ t. cc)
                          (λ _. switched-Sound w name on s f h))))))

deleted-Sound :
    (w : World) (name : Text) (s : Stores)
    → w.selection_save_fails ≡ false
    → consistent s.providers s.active ≡ true
    → Sound (
        let s₁ = delete_secret w name (record s { providers = remove_name name s.providers }) in
        if text_eq s₁.active name then clear_active w s₁ else (load_agents w s₁, s₁))
deleted-Sound w name s f h =
    if_both Sound
      (text_eq (delete_secret w name (record s { providers = remove_name name s.providers })).active
        name)
      _ _ (λ _. clear_active-Sound w _ f)
      (λ e. ground (arith, find-remove_name s.active name s.providers))

pub delete-Sound :
    (w : World) (name : Text) (s : Stores)
    → w.selection_load_fails ≡ false
    → w.selection_save_fails ≡ false
    → consistent s.providers s.active ≡ true
    → Sound (delete_agent w name s)
unfolding delete_agent
delete-Sound w name s l f h =
    if_both Sound (is_empty name) _ _ (λ _. h)
      (λ _.
        if_both Sound (not w.configured) _ _ (λ _. h)
          (λ _.
            if_both Sound w.load_fails _ _ (λ _. h)
              (λ _.
                if_both Sound (not (known name s)) _ _ (λ _. h)
                  (λ _.
                    if_both Sound w.save_fails _ _ (λ _. h)
                      (λ _.
                        if_both Sound w.selection_load_fails _ _ (λ t. cc)
                          (λ _. deleted-Sound w name s f h))))))

save_provider-Sound :
    (w : World) (new : Provider) (s : Stores)
    → w.load_fails ≡ false
    → text_eq s.active new.name && not new.enabled ≡ false
    → consistent s.providers s.active ≡ true
    → Sound (save_provider w new s)
save_provider-Sound w new s l k h = ground (arith, find-upsert s.active new s.providers)

stored-Sound :
    (w : World) (new : Provider) (s : Stores) (key : Text)
    → w.load_fails ≡ false
    → text_eq s.active new.name && not new.enabled ≡ false
    → consistent s.providers s.active ≡ true
    → Sound (elim (store_secret w new.name key s) [
      | err e ↦ (err e, s)
      | ok s₁ ↦ save_provider w new s₁
    ])
unfolding store_secret
stored-Sound w new s key l k h = elim (Bool-cases w.keychain) [
  | inl e ↦ elim (Bool-cases w.secret_set_fails) [
    | inl f ↦ simp (e, f) h
    | inr f ↦
        simp (e, f)
          (save_provider-Sound w new (record s { secrets = insert new.name key s.secrets }) l k h)
  ]
  | inr e ↦ simp e h
]

pub add-Sound :
    (w : World) (p : AddPayload) (s : Stores)
    → w.load_fails ≡ false
    → text_eq s.active p.name && not p.enabled ≡ false
    → consistent s.providers s.active ≡ true
    → Sound (add_agent w p s)
unfolding add_agent
add-Sound w p s l k h =
    if_both Sound
      (is_empty p.name
        || is_empty p.type_name
        || is_empty p.model
        || (is_empty p.api_key && is_empty p.api_key_env))
      _ _ (λ _. h)
      (λ _. elim (Option-cases (type_named (w.lower p.type_name))) [
        | inl e ↦ rw e h
        | inr (kind, e) ↦ rw e (
            if_both Sound (not w.configured) _ _ (λ _. h)
              (λ _.
                if_both Sound (is_empty p.api_key) _ _
                  (λ _. save_provider-Sound w (provider_of p kind) s l k h)
                  (λ _. stored-Sound w (provider_of p kind) s p.api_key l k h)))
      ])
