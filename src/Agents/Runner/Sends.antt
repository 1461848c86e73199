-- ===== src/Agents/Runner/Sends.antt =====
-- Where the key of a provider goes.
use mathlib.Core.Path.{subst}
use krellin.Prelude.{
  ◌≡◌, refl, ap, if◌then◌else◌, sym, inl, inr, Option, none, some, List, [], ◌∷◌, ◌++◌,
}
use krellin.Prelude.Text.{Text, codes, is_empty, trim_right}
use krellin.Prelude.Result.{Result, ok, err, Result-cases}
use krellin.FilePath.{slash}
use krellin.Agents.{ProviderType, openai, anthropic, grok, gemini, llama, Provider}
use krellin.Agents.Runner.{
  HttpRequest, HttpReply, Wire, api_key, default_base, base_of, chat_request, messages_request,
  contents_request, received, if_url, by_type, with_key, prompt,
}

-- The address that the documentation of each service names.
abbrev official : ProviderType → Text
official openai = codes "https://api.openai.com"
official grok = codes "https://api.x.ai"
official llama = codes "https://api.openai.com"
official anthropic = codes "https://api.anthropic.com"
official gemini = codes "https://generativelanguage.googleapis.com/v1beta"

-- The base address of a provider: its own, or that of its type where it has none.
abbrev based : Text → ProviderType → Text
based [] kind = official kind
based (c ∷ own) kind = c ∷ own

-- What follows the base address, for a model.
abbrev path_of : ProviderType → Text → Text
path_of openai model = codes "/v1/chat/completions"
path_of grok model = codes "/v1/chat/completions"
path_of llama model = codes "/v1/chat/completions"
path_of anthropic model = codes "/v1/messages"
path_of gemini model = codes "/models/" ++ (model ++ codes ":generateContent")

-- All headers of a request: the key stands in the one that the service reads.
abbrev headers_of : ProviderType → Text → List (Text × Text)
headers_of openai key =
    (codes "Authorization", codes "Bearer " ++ key)
    ∷ (codes "Content-Type", codes "application/json")
    ∷ []
headers_of grok key =
    (codes "Authorization", codes "Bearer " ++ key)
    ∷ (codes "Content-Type", codes "application/json")
    ∷ []
headers_of llama key =
    (codes "Authorization", codes "Bearer " ++ key)
    ∷ (codes "Content-Type", codes "application/json")
    ∷ []
headers_of anthropic key =
    (codes "x-api-key", key)
    ∷ (codes "anthropic-version", codes "2023-06-01")
    ∷ (codes "content-type", codes "application/json")
    ∷ []
headers_of gemini key =
    (codes "x-goog-api-key", key) ∷ (codes "Content-Type", codes "application/json") ∷ []

abbrev sent_body : ProviderType → Wire → Text → Text → Text
sent_body openai wire model text = wire.chat_body model text
sent_body grok wire model text = wire.chat_body model text
sent_body llama wire model text = wire.chat_body model text
sent_body anthropic wire model text = wire.messages_body model text
sent_body gemini wire model text = wire.contents_body text

-- The request for a text that is right for a provider of a type.
abbrev AddressedAs : ProviderType → Wire → Provider → Text → Text → HttpRequest → Type 0
AddressedAs kind wire provider key text r =
    (r.url
      ≡ trim_right slash (based provider.base_url provider.kind) ++ path_of kind provider.model)
    × (r.headers ≡ headers_of kind key)
    × (r.body ≡ sent_body kind wire provider.model text)

abbrev pub Addressed : Wire → Provider → Text → Text → HttpRequest → Type 0
Addressed wire provider key text r = AddressedAs provider.kind wire provider key text r

base_of-based : (provider : Provider) → base_of provider ≡ based provider.base_url provider.kind
unfolding base_of is_empty
base_of-based provider = go provider.base_url provider.kind
  where
    go :
        (own : Text) (kind : ProviderType)
        → (if is_empty own then default_base kind else own) ≡ based own kind
    go [] openai = refl
    go [] grok = refl
    go [] llama = refl
    go [] anthropic = refl
    go [] gemini = refl
    go (c ∷ own) kind = refl

module _ {S : Type 0} (wire : Wire) (env : Text → Text) (url_error : Text → Option Text)
    (send : HttpRequest → S → Result Text HttpReply × S) where
  received_state :
      (read : Text → Result Text Text) (r : Result Text HttpReply × S)
      → (received wire env url_error send read r).1 ≡ r.1
  received_state read (err e, s) = refl
  received_state read (ok reply, s) = refl

  exchange-keeps :
      (P : S → Type 0) (r : HttpRequest) (read : Text → Result Text Text) (s : S) (o : Option Text)
      → P s
      → P (send r s).1
      → P (if_url wire env url_error send o r read s).1
  exchange-keeps P r read s (some e) h k = h
  exchange-keeps P r read s none h k = subst P (sym (received_state read (send r s))) k

  at_base :
      (provider : Provider) (path : Text)
      → trim_right slash (base_of provider) ++ path
        ≡ trim_right slash (based provider.base_url provider.kind) ++ path
  at_base provider path = ap (λ b. trim_right slash b ++ path) (base_of-based provider)

  by_type-keeps :
      (P : S → Type 0) (kind : ProviderType) (provider : Provider) (text key : Text) (s : S)
      → ((r : HttpRequest) → AddressedAs kind wire provider key text r → P (send r s).1)
      → P s
      → P (by_type wire env url_error send kind provider text key s).1
  unfolding chat_request messages_request contents_request
  by_type-keeps P openai provider text key s kept h =
      exchange-keeps P (chat_request wire provider key text) _ s _ h
        (kept _ (at_base provider _, refl, refl))
  by_type-keeps P grok provider text key s kept h =
      exchange-keeps P (chat_request wire provider key text) _ s _ h
        (kept _ (at_base provider _, refl, refl))
  by_type-keeps P llama provider text key s kept h =
      exchange-keeps P (chat_request wire provider key text) _ s _ h
        (kept _ (at_base provider _, refl, refl))
  by_type-keeps P anthropic provider text key s kept h =
      exchange-keeps P (messages_request wire provider key text) _ s _ h
        (kept _ (at_base provider _, refl, refl))
  by_type-keeps P gemini provider text key s kept h =
      exchange-keeps P (contents_request wire provider key text) _ s _ h
        (kept _ (at_base provider _, refl, refl))

  -- What holds of the world, and is kept by the one request that is right, is kept by `Prompt`: no other request is
  -- sent, and none without a key. The request that is right goes to the provider's own base address, or to that of its
  -- type where it has none, followed by just the path of its type's service; its headers are those of the service with
  -- the key that `apiKey` gives in the one for it; and its body is for the text and the provider's model.
  pub prompt-Sends :
      (P : S → Type 0) (provider : Provider) (held text : Text)
      → ((key : Text) (r : HttpRequest) (s : S)
          → api_key env provider held ≡ ok key
          → Addressed wire provider key text r
          → P s
          → P (send r s).1)
      → (s : S) → P s
      → P (prompt wire env url_error send provider held text s).1
  unfolding prompt
  prompt-Sends P provider held text kept s h = elim (Result-cases (api_key env provider held)) [
    | inr (e, at) ↦ rw (at, with_key) h
    | inl (key, at) ↦
        rw (at, with_key)
          (by_type-keeps P provider.kind provider text key s (λ r right. kept key r s at right h) h)
  ]
