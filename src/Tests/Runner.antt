-- ===== src/Tests/Runner.antt =====
-- A prompt to a provider with a base address of its own.
use mathlib.Core.Path.{subst}
use krellin.Prelude.{◌≡◌, refl, true, Option, none, List, [], ◌∷◌, All}
use krellin.Prelude.Text.{Text, codes, text_eq, is_empty}
use krellin.Prelude.Result.{Result, ok}
use krellin.Agents.{Provider, anthropic}
use krellin.Agents.Runner.{
  HttpRequest, HttpReply, Wire, api_key, base_of, messages_request, text_parts, prompt,
}
use krellin.Agents.Runner.Sends.{Addressed, prompt-Sends}

abbrev provider : Provider
provider = record {
  name = codes "a";
  kind = anthropic;
  base_url = codes "https://proxy.example/";
  model = codes "m";
  api_key_env = codes "A_KEY";
  enabled = true;
}

abbrev key : Text
key = codes "secret"

abbrev wire : Wire
wire = record {
  chat_body = λ model text. text;
  messages_body = λ model text. text;
  contents_body = λ text. text;
  choices = λ body. ok (body ∷ []);
  content = λ body. ok ((codes "text", body) ∷ (codes "thinking", codes "x") ∷ []);
  candidates = λ body. ok ((body ∷ []) ∷ []);
}

-- The environment holds the key, every address can be read, and every request is noted and answered.
abbrev env : Text → Text
env name = key

abbrev url_error : Text → Option Text
url_error url = none

abbrev send : HttpRequest → List HttpRequest → Result Text HttpReply × List HttpRequest
send r sent = (ok (record { status = 200; body = codes "hello" }), r ∷ sent)

answers :
    prompt wire env url_error send provider [] (codes "hi") []
    ≡ (ok (codes "hello"), messages_request wire provider key (codes "hi") ∷ [])
unfolding prompt api_key is_empty text_parts messages_request base_of text_eq
answers = refl

abbrev AllAddressed : List HttpRequest → Type 0
AllAddressed sent = All (Addressed wire provider key (codes "hi")) sent

same_key : (given : Text) → ◌≡◌ {A = Result Text Text} (ok key) (ok given) → given ≡ key
same_key given e = cc

kept-Addressed :
    (given : Text) (r : HttpRequest) (sent : List HttpRequest)
    → api_key env provider [] ≡ ok given
    → Addressed wire provider given (codes "hi") r
    → AllAddressed sent
    → AllAddressed (send r sent).1
unfolding api_key is_empty
kept-Addressed given r sent e right h =
    let same : given ≡ key = same_key given e in
    (subst (λ k. Addressed wire provider k (codes "hi") r) same right, h)

prompt-Sends_example : AllAddressed (prompt wire env url_error send provider [] (codes "hi") []).1
prompt-Sends_example =
    prompt-Sends wire env url_error send AllAddressed provider [] (codes "hi") kept-Addressed [] tt
