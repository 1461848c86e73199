-- ===== src/Agents.antt =====
-- The providers of agents: internal/agents/store.go, selection.go, checker.go and the handlers of
-- internal/session/handler.go that keep them. The two files and the keychain are a value; a fault of
-- theirs is a flag of the world, and holds for all of a handler's calls. JSON is taken to read
-- what it has written.
pub mod Store
pub mod Handlers
pub mod Runner
pub mod Files
pub mod Sound
pub mod Consistent
use krellin.Prelude.{
  ℕ, Bool, true, false, not, ◌&&◌, ◌||◌, Option, none, some, List, [], ◌∷◌, ◌++◌, map,
  if◌then◌else◌,
}
use krellin.Prelude.Text.{Text, codes, text_eq, is_empty}
use krellin.Prelude.Result.{Result, ok, err}
use krellin.Prelude.Dict.{Dict, lookup, insert, remove}

pub data ProviderType : Type 0 where
  openai anthropic grok gemini llama : ProviderType

pub record Provider : Type 0 where
  pub name : Text
  pub kind : ProviderType
  pub base_url : Text
  pub model : Text
  pub api_key_env : Text
  pub enabled : Bool

-- `providers.json`, `agents.json` and the keychain.
pub record Stores : Type 0 where
  pub providers : List Provider
  pub active : Text
  pub secrets : Dict Text

pub data AgentError : Type 0 where
  name_required not_configured load_failed save_failed selection_load_failed selection_save_failed :
      AgentError
  unknown_agent fields_required invalid_type no_keychain secret_failed : AgentError
  provider_disabled provider_not_found no_enabled_provider : AgentError

-- What the process stands in: its configuration, its environment variables, its checker of
-- endpoints, `strings.ToLower`, and the faults of the stores.
pub record World : Type 0 where
  pub configured : Bool
  pub keychain : Bool
  pub load_fails : Bool
  pub save_fails : Bool
  pub selection_load_fails : Bool
  pub selection_save_fails : Bool
  pub secret_set_fails : Bool
  pub secret_delete_fails : Bool
  pub has_env : Text → Bool
  pub checker : Option (Provider → Text)
  pub lower : Text → Text

pub record AddPayload : Type 0 where
  pub name : Text
  pub type_name : Text
  pub model : Text
  pub base_url : Text
  pub api_key : Text
  pub api_key_env : Text
  pub enabled : Bool

pub record ProviderInfo : Type 0 where
  pub provider : Provider
  pub has_api_key : Bool
  pub status : Text

pub record Listing : Type 0 where
  pub infos : List ProviderInfo
  pub active : Text

abbrev pub type_named : Text → Option ProviderType
type_named t =
    if text_eq t (codes "openai")
    then some openai
    else if text_eq t (codes "anthropic")
    then some anthropic
    else if text_eq t (codes "grok")
    then some grok
    else if text_eq t (codes "gemini")
    then some gemini
    else if text_eq t (codes "llama")
    then some llama
    else none

-- `defaultBaseURL`
unfoldable pub default_base_url : ProviderType → Text
default_base_url openai = codes "https://api.openai.com"
default_base_url anthropic = codes "https://api.anthropic.com"
default_base_url grok = codes "https://api.x.ai"
default_base_url gemini = codes "https://generativelanguage.googleapis.com"
default_base_url llama = []

abbrev is_llama : ProviderType → Bool
is_llama llama = true
is_llama _ = false

abbrev checked : Option (Provider → Text) → Provider → Text
checked none p = codes "ready"
checked (some check) p = if is_empty (check p) then codes "ready" else check p

-- `providerStatus`
unfoldable pub provider_status : World → Provider → Bool → Text
provider_status w p has_key =
    if not p.enabled
    then codes "disabled"
    else if is_llama p.kind && is_empty p.base_url
    then codes "missing_base_url"
    else if not has_key && (is_empty p.api_key_env || not (w.has_env p.api_key_env))
    then codes "missing_key"
    else checked w.checker p

-- `providerHasKey`
abbrev provider_has_key : World → Stores → Provider → Bool
provider_has_key w s p =
    w.keychain && elim (lookup p.name s.secrets) [ none ↦ false | some _ ↦ true ]

-- `loadAgents`, which `emitAgentsList` sends.
unfoldable pub load_agents : World → Stores → Result AgentError Listing
load_agents w s =
    if not w.configured
    then err not_configured
    else if w.load_fails
    then err load_failed
    else if w.selection_load_fails
    then err selection_load_failed
    else ok (record {
      infos =
          map
            (λ p. record {
              provider = p;
              has_api_key = provider_has_key w s p;
              status = provider_status w p (provider_has_key w s p);
            })
            s.providers;
      active = s.active;
    })

-- The loops that look for a name stop at the first provider that has it.
unfoldable pub find_name : Text → List Provider → Option Provider
find_name name [] = none
find_name name (p ∷ ps) = if text_eq p.name name then some p else find_name name ps

unfoldable pub find_enabled : List Provider → Option Provider
find_enabled [] = none
find_enabled (p ∷ ps) = if p.enabled then some p else find_enabled ps

unfoldable pub enable_first : Text → Bool → List Provider → List Provider
enable_first name on [] = []
enable_first name on (p ∷ ps) =
    if text_eq p.name name then record p { enabled = on } ∷ ps else p ∷ enable_first name on ps

unfoldable pub remove_name : Text → List Provider → List Provider
remove_name name [] = []
remove_name name (p ∷ ps) =
    if text_eq p.name name then remove_name name ps else p ∷ remove_name name ps

-- The loop of `Store.Upsert` and of `upsertProviders`.
unfoldable pub upsert : Provider → List Provider → List Provider
upsert new [] = new ∷ []
upsert new (p ∷ ps) = if text_eq p.name new.name then new ∷ ps else p ∷ upsert new ps
