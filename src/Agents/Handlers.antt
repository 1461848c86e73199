-- ===== src/Agents/Handlers.antt =====
-- The handlers of internal/session/handler.go that change the stores, and the choice of the provider that
-- prompts go to.
use krellin.Prelude.{
  Bool, true, false, not, ◌&&◌, ◌||◌, Option, none, some, List, [], ◌∷◌, if◌then◌else◌,
}
use krellin.Prelude.Text.{Text, text_eq, is_empty}
use krellin.Prelude.Result.{Result, ok, err}
use krellin.Prelude.Dict.{insert, remove}
use krellin.Agents.{
  ProviderType, Provider, Stores, AgentError, World, AddPayload, Listing, type_named, load_agents,
  find_name, find_enabled, enable_first, remove_name, upsert, name_required, not_configured,
  load_failed, save_failed, selection_load_failed, selection_save_failed, unknown_agent,
  fields_required, invalid_type, no_keychain, secret_failed, provider_disabled, provider_not_found,
  no_enabled_provider,
}

abbrev pub known : Text → Stores → Bool
known name s = elim (find_name name s.providers) [ none ↦ false | some _ ↦ true ]

-- `setActiveAgent`
unfoldable pub set_active_agent : World → Text → Stores → Result AgentError Listing × Stores
set_active_agent w name s =
    if is_empty name
    then (err name_required, s)
    else if not w.configured
    then (err not_configured, s)
    else if w.load_fails
    then (err load_failed, s)
    else if not (known name s)
    then (err unknown_agent, s)
    else if w.save_fails
    then (err save_failed, s)
    else let s₁ = record s { providers = enable_first name true s.providers } in
      if w.selection_save_fails
      then (err selection_save_failed, s₁)
      else let s₂ = record s₁ { active = name } in (load_agents w s₂, s₂)

abbrev pub clear_active : World → Stores → Result AgentError Listing × Stores
clear_active w s =
    if w.selection_save_fails
    then (err selection_save_failed, s)
    else let cleared = record s { active = [] } in (load_agents w cleared, cleared)

-- `toggleAgent`
unfoldable pub toggle_agent : World → Text → Bool → Stores → Result AgentError Listing × Stores
toggle_agent w name on s =
    if is_empty name
    then (err name_required, s)
    else if not w.configured
    then (err not_configured, s)
    else if w.load_fails
    then (err load_failed, s)
    else if not (known name s)
    then (err unknown_agent, s)
    else if w.save_fails
    then (err save_failed, s)
    else let s₁ = record s { providers = enable_first name on s.providers } in
      if w.selection_load_fails
      then (err selection_load_failed, s₁)
      else if not on && text_eq s.active name
      then clear_active w s₁
      else (load_agents w s₁, s₁)

-- `upsertProviders`: where the stored providers cannot be read, the new one is all there is.
abbrev upsert_providers : World → Provider → List Provider → List Provider
upsert_providers w new ps = if w.load_fails then new ∷ [] else upsert new ps

-- `storeSecret`
unfoldable pub store_secret : World → Text → Text → Stores → Result AgentError Stores
store_secret w name secret s =
    if not w.keychain
    then err no_keychain
    else if w.secret_set_fails
    then err secret_failed
    else ok (record s { secrets = insert name secret s.secrets })

abbrev pub provider_of : AddPayload → ProviderType → Provider
provider_of p kind = record {
  name = p.name;
  kind = kind;
  base_url = p.base_url;
  model = p.model;
  api_key_env = p.api_key_env;
  enabled = p.enabled;
}

abbrev pub save_provider : World → Provider → Stores → Result AgentError Listing × Stores
save_provider w new s =
    if w.save_fails
    then (err save_failed, s)
    else let s₁ = record s { providers = upsert_providers w new s.providers } in
      (load_agents w s₁, s₁)

-- `addAgent`
unfoldable pub add_agent : World → AddPayload → Stores → Result AgentError Listing × Stores
add_agent w p s =
    if is_empty p.name
      || is_empty p.type_name
      || is_empty p.model
      || (is_empty p.api_key && is_empty p.api_key_env)
    then (err fields_required, s)
    else elim (type_named (w.lower p.type_name)) [
      | none ↦ (err invalid_type, s)
      | some kind ↦
          if not w.configured
          then (err not_configured, s)
          else if is_empty p.api_key
          then save_provider w (provider_of p kind) s
          else elim (store_secret w p.name p.api_key s) [
            | err e ↦ (err e, s)
            | ok s₁ ↦ save_provider w (provider_of p kind) s₁
          ]
    ]

-- A keychain that refuses to delete is not reported.
abbrev pub delete_secret : World → Text → Stores → Stores
delete_secret w name s = record s {
  secrets = if w.keychain && not w.secret_delete_fails then remove name s.secrets else s.secrets;
}

-- `deleteAgent`
unfoldable pub delete_agent : World → Text → Stores → Result AgentError Listing × Stores
delete_agent w name s =
    if is_empty name
    then (err name_required, s)
    else if not w.configured
    then (err not_configured, s)
    else if w.load_fails
    then (err load_failed, s)
    else if not (known name s)
    then (err unknown_agent, s)
    else if w.save_fails
    then (err save_failed, s)
    else let s₁ = delete_secret w name (record s { providers = remove_name name s.providers }) in
      if w.selection_load_fails
      then (err selection_load_failed, s₁)
      else if text_eq s₁.active name
      then clear_active w s₁
      else (load_agents w s₁, s₁)

abbrev active_of : Option Provider → Result AgentError Provider
active_of none = err provider_not_found
active_of (some p) = if p.enabled then ok p else err provider_disabled

abbrev first_of : Option Provider → Result AgentError Provider
first_of none = err no_enabled_provider
first_of (some p) = ok p

-- `resolveActiveProvider`
unfoldable pub resolve_active_provider : World → Stores → Result AgentError Provider
resolve_active_provider w s =
    if not w.configured
    then err not_configured
    else if w.load_fails
    then err load_failed
    else if w.selection_load_fails
    then err selection_load_failed
    else if is_empty s.active
    then first_of (find_enabled s.providers)
    else active_of (find_name s.active s.providers)

-- The actions of `Handle` that change the stores.
pub data Request : Type 0 where
  set_active : Text → Request
  toggle : Text → Bool → Request
  add : AddPayload → Request
  delete : Text → Request

unfoldable pub serve : World → Request → Stores → Result AgentError Listing × Stores
serve w (set_active name) s = set_active_agent w name s
serve w (toggle name on) s = toggle_agent w name on s
serve w (add payload) s = add_agent w payload s
serve w (delete name) s = delete_agent w name s
