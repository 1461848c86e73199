-- ===== src/Agents/Runner.antt =====
-- internal/agents/runtime.go: `HTTPRunner`. The HTTP client, the environment and the JSON library are parameters; a
-- provider has one of the five types.
pub mod Sends
use krellin.Prelude.{
  ℕ, Bool, true, false, not, ◌||◌, Option, none, some, List, [], ◌∷◌, ◌++◌, ltb, leb, if◌then◌else◌,
}
use krellin.Prelude.Text.{Text, codes, text_eq, is_empty, trim_space, trim_right}
use krellin.Prelude.Result.{Result, ok, err}
use krellin.FilePath.{slash}
use krellin.Agents.{ProviderType, openai, anthropic, grok, gemini, llama, Provider}

pub record HttpRequest : Type 0 where
  pub url : Text
  pub headers : List (Text × Text)
  pub body : Text

pub record HttpReply : Type 0 where
  pub status : ℕ
  pub body : Text

-- The bodies that are sent for a model and a prompt, and what is read from those that come: the contents of the choices,
-- the types and texts of the parts, and the texts of the parts of each candidate.
pub record Wire : Type 0 where
  pub chat_body : Text → Text → Text
  pub messages_body : Text → Text → Text
  pub contents_body : Text → Text
  pub choices : Text → Result Text (List Text)
  pub content : Text → Result Text (List (Text × Text))
  pub candidates : Text → Result Text (List (List Text))

-- `apiKey`, for the key that the provider holds
unfoldable pub api_key : (Text → Text) → Provider → Text → Result Text Text
api_key env provider key =
    if not (is_empty key)
    then ok key
    else if is_empty provider.api_key_env
    then err (codes "api key not set")
    else if is_empty (env provider.api_key_env)
    then err (codes "missing api key in " ++ provider.api_key_env)
    else ok (env provider.api_key_env)

abbrev pub default_base : ProviderType → Text
default_base grok = codes "https://api.x.ai"
default_base anthropic = codes "https://api.anthropic.com"
default_base gemini = codes "https://generativelanguage.googleapis.com/v1beta"
default_base openai = codes "https://api.openai.com"
default_base llama = codes "https://api.openai.com"

unfoldable pub base_of : Provider → Text
base_of provider =
    if is_empty provider.base_url then default_base provider.kind else provider.base_url

abbrev endpoint : Provider → Text → Text
endpoint provider path = trim_right slash (base_of provider) ++ path

-- The requests of `promptOpenAICompat`, `promptAnthropic` and `promptGemini`
unfoldable pub chat_request : Wire → Provider → Text → Text → HttpRequest
chat_request wire provider key prompt = record {
  url = endpoint provider (codes "/v1/chat/completions");
  headers =
      (codes "Authorization", codes "Bearer " ++ key)
      ∷ (codes "Content-Type", codes "application/json")
      ∷ [];
  body = wire.chat_body provider.model prompt;
}

unfoldable pub messages_request : Wire → Provider → Text → Text → HttpRequest
messages_request wire provider key prompt = record {
  url = endpoint provider (codes "/v1/messages");
  headers =
      (codes "x-api-key", key)
      ∷ (codes "anthropic-version", codes "2023-06-01")
      ∷ (codes "content-type", codes "application/json")
      ∷ [];
  body = wire.messages_body provider.model prompt;
}

unfoldable pub contents_request : Wire → Provider → Text → Text → HttpRequest
contents_request wire provider key prompt = record {
  url = endpoint provider (codes "/models/" ++ (provider.model ++ codes ":generateContent"));
  headers = (codes "x-goog-api-key", key) ∷ (codes "Content-Type", codes "application/json") ∷ [];
  body = wire.contents_body prompt;
}

abbrev empty_response : Result Text Text
empty_response = err (codes "empty response")

abbrev first_choice : Result Text (List Text) → Result Text Text
first_choice (err e) = err e
first_choice (ok []) = empty_response
first_choice (ok (text ∷ texts)) = ok text

-- The texts of the parts of type `text`.
unfoldable pub text_parts : List (Text × Text) → Text
text_parts [] = []
text_parts ((kind, text) ∷ parts) =
    let rest = text_parts parts in if text_eq kind (codes "text") then text ++ rest else rest

abbrev all_parts : Result Text (List (Text × Text)) → Result Text Text
all_parts (err e) = err e
all_parts (ok parts) = if is_empty (text_parts parts) then empty_response else ok (text_parts parts)

abbrev first_candidate : Result Text (List (List Text)) → Result Text Text
first_candidate (err e) = err e
first_candidate (ok []) = empty_response
first_candidate (ok ([] ∷ candidates)) = empty_response
first_candidate (ok ((text ∷ texts) ∷ candidates)) = ok text

-- A reply counts with a status of success.
abbrev answered : (Text → Result Text Text) → HttpReply → Result Text Text
answered read reply =
    if ltb reply.status 200 || leb 300 reply.status
    then err (codes "provider error: " ++ trim_space reply.body)
    else read reply.body

module _ {S : Type 0} (wire : Wire) (env : Text → Text) (url_error : Text → Option Text)
    (send : HttpRequest → S → Result Text HttpReply × S) where
  abbrev pub received : (Text → Result Text Text) → Result Text HttpReply × S → Result Text Text × S
  received read (err e, s) = (err e, s)
  received read (ok reply, s) = (answered read reply, s)

  abbrev pub if_url :
      Option Text → HttpRequest → (Text → Result Text Text) → S → Result Text Text × S
  if_url (some e) request read s = (err e, s)
  if_url none request read s = received read (send request s)

  abbrev exchange : HttpRequest → (Text → Result Text Text) → S → Result Text Text × S
  exchange request read s = if_url (url_error request.url) request read s

  abbrev chat : Provider → Text → Text → S → Result Text Text × S
  chat provider text key s =
      exchange (chat_request wire provider key text) (λ body. first_choice (wire.choices body)) s

  -- What is sent to a provider of a type.
  abbrev pub by_type : ProviderType → Provider → Text → Text → S → Result Text Text × S
  by_type anthropic provider text key s =
      exchange (messages_request wire provider key text) (λ body. all_parts (wire.content body)) s
  by_type gemini provider text key s =
      exchange (contents_request wire provider key text)
        (λ body. first_candidate (wire.candidates body)) s
  by_type openai provider text key s = chat provider text key s
  by_type grok provider text key s = chat provider text key s
  by_type llama provider text key s = chat provider text key s

  abbrev pub with_key : Provider → Text → Result Text Text → S → Result Text Text × S
  with_key provider text (err e) s = (err e, s)
  with_key provider text (ok key) s = by_type provider.kind provider text key s

  -- `Prompt`, for the key that the provider holds
  unfoldable pub prompt : Provider → Text → Text → S → Result Text Text × S
  unfolding api_key chat_request messages_request contents_request text_parts
  prompt provider key text s = with_key provider text (api_key env provider key) s
