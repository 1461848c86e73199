-- ===== src/Tests/Agents.antt =====
-- The providers of a user with two of them.
use krellin.Prelude.{◌≡◌, refl, true, false, none, List, [], ◌∷◌}
use krellin.Prelude.Text.{codes, text_eq, is_empty}
use krellin.Prelude.Result.{ok}
use krellin.Agents.{
  Provider, ProviderInfo, openai, grok, Stores, World, find_name, find_enabled, enable_first,
  remove_name, load_agents, provider_status,
}
use krellin.Agents.Handlers.{set_active_agent, delete_agent, resolve_active_provider, toggle, serve}
use krellin.Agents.Sound.{Steady, Sound, consistent}
use krellin.Agents.Consistent.{serve-consistent}

abbrev world : World
world = record {
  configured = true;
  keychain = false;
  load_fails = false;
  save_fails = false;
  selection_load_fails = false;
  selection_save_fails = false;
  secret_set_fails = false;
  secret_delete_fails = false;
  has_env = λ name. true;
  checker = none;
  lower = λ text. text;
}

abbrev first : Provider
first = record {
  name = codes "a";
  kind = openai;
  base_url = [];
  model = codes "m";
  api_key_env = codes "A_KEY";
  enabled = true;
}

abbrev second : Provider
second = record {
  name = codes "b";
  kind = grok;
  base_url = [];
  model = codes "m";
  api_key_env = codes "B_KEY";
  enabled = false;
}

abbrev stores : Stores
stores = record { providers = first ∷ second ∷ []; active = codes "a"; secrets = [] }

steady : Steady world
steady = record { loads = refl; selection_loads = refl; selection_saves = refl }

starts_consistent : consistent stores.providers stores.active ≡ true
unfolding is_empty find_name text_eq
starts_consistent = refl

serve-consistent_example : Sound (serve world (toggle (codes "a") false) stores)
serve-consistent_example =
    serve-consistent world (toggle (codes "a") false) stores steady refl starts_consistent

abbrev selected : List Provider
selected = first ∷ record second { enabled = true } ∷ []

abbrev infos : List Provider → List ProviderInfo
infos [] = []
infos (p ∷ ps) =
    record { provider = p; has_api_key = false; status = provider_status world p false } ∷ infos ps

listed :
    (set_active_agent world (codes "b") stores).0
    ≡ ok (record { infos = infos selected; active = codes "b" })
unfolding set_active_agent load_agents find_name enable_first text_eq is_empty
listed = refl

deleted :
    (delete_agent world (codes "b") stores).0
    ≡ ok (record { infos = infos (first ∷ []); active = codes "a" })
unfolding delete_agent load_agents find_name remove_name text_eq is_empty
deleted = refl

still_first : resolve_active_provider world (delete_agent world (codes "b") stores).1 ≡ ok first
unfolding delete_agent resolve_active_provider find_name find_enabled remove_name text_eq is_empty
still_first = refl
