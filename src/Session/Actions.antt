-- ===== src/Session/Actions.antt =====
-- The actions that `Handle` of internal/session/handler.go takes, and the decoding of their payloads.
use krellin.Prelude.{Bool, Option, none, some, ◌++◌, if◌then◌else◌}
use krellin.Prelude.Text.{Text, codes, text_eq}
use krellin.Prelude.Result.{Result, ok, err}
use krellin.Agents.{AddPayload}
use krellin.Agents.Handlers.{Request, set_active, toggle, add, delete}

-- The bodies of actions, once their payloads are decoded.
pub data Plain : Type 0 where
  network_toggle reset : Bool → Plain
  freeze run_command apply_patch : Text → Plain
  revert containers agents : Plain
  change_agents : Request → Plain

pub data Body : Type 0 where
  plain : Plain → Body
  agent_prompt : Text → Body

-- The JSON decoder, by the type of the payload.
pub record Decoders : Type 0 where
  pub flag : Text → Option Bool
  pub text : Text → Option Text
  pub named_flag : Text → Option (Text × Bool)
  pub provider : Text → Option AddPayload

abbrev body_or : {A : Type 0} → Text → (A → Body) → Option A → Result Text Body
body_or kind body none = err (codes "invalid " ++ (kind ++ codes " payload"))
body_or kind body (some a) = ok (body a)

-- The cases of `Handle` up to the decoding of the payload
unfoldable pub body_of : Decoders → Text → Text → Result Text Body
body_of d kind payload =
    if text_eq kind (codes "network_toggle")
    then body_or kind (λ on. plain (network_toggle on)) (d.flag payload)
    else if text_eq kind (codes "reset")
    then body_or kind (λ preserve. plain (reset preserve)) (d.flag payload)
    else if text_eq kind (codes "freeze")
    then body_or kind (λ text. plain (freeze text)) (d.text payload)
    else if text_eq kind (codes "run_command")
    then body_or kind (λ text. plain (run_command text)) (d.text payload)
    else if text_eq kind (codes "apply_patch")
    then body_or kind (λ text. plain (apply_patch text)) (d.text payload)
    else if text_eq kind (codes "revert")
    then ok (plain revert)
    else if text_eq kind (codes "containers_list")
    then ok (plain containers)
    else if text_eq kind (codes "agents_list")
    then ok (plain agents)
    else if text_eq kind (codes "agents_set_active")
    then body_or kind (λ name. plain (change_agents (set_active name))) (d.text payload)
    else if text_eq kind (codes "agents_toggle")
    then body_or kind (λ p. plain (change_agents (toggle p.0 p.1))) (d.named_flag payload)
    else if text_eq kind (codes "agents_add")
    then body_or kind (λ p. plain (change_agents (add p))) (d.provider payload)
    else if text_eq kind (codes "agents_delete")
    then body_or kind (λ name. plain (change_agents (delete name))) (d.text payload)
    else if text_eq kind (codes "agent_prompt")
    then body_or kind agent_prompt (d.text payload)
    else err (codes "action not implemented")
