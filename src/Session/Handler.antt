-- ===== src/Session/Handler.antt =====
-- internal/session/handler.go: `Handle` and `handleAgentPrompt`. What a session is built from, the capsule, the
-- publisher, the resolver, the updater, the bookkeeper, the inventory, the stores of providers and the agent, is a
-- record of operations on a common state; a part that the session does not have is `none`.
pub mod Ends
use krellin.Prelude.{
  Bool, true, false, not, ◌&&◌, Option, none, some, List, [], ◌∷◌, ◌++◌, if◌then◌else◌,
}
use krellin.Prelude.Text.{Text, codes, text_eq, is_empty, trim_space}
use krellin.Prelude.Result.{Result, ok, err}
use krellin.Agents.{Provider, Listing, AddPayload}
use krellin.Agents.Handlers.{Request, set_active, toggle, add, delete}
use krellin.Containers.{CapsuleInfo}
use krellin.Session.Actions.{
  Plain, network_toggle, reset, freeze, run_command, apply_patch, revert, containers, agents,
  change_agents, Body, plain, agent_prompt, Decoders, body_of,
}
use krellin.Session.Context.{ChatTurn, Context, add_chat_turn}

-- The events of the handler by their payloads.
pub data Out : Type 0 where
  banner reset_completed : Out
  freeze_created agent_message : Text → Out
  diff_ready : Text → List Text → Out
  containers_list : List CapsuleInfo → Out
  agents_list : Listing → Out

-- `AgentsRunner`, its secrets, the prompt that is built and the loop of `runAgentWithTools`, with its events.
pub record AgentParts (S : Type 0) : Type 0 where
  pub resolve_provider : S → Result Text Provider
  pub secret : Option (Text → S → Result Text Text)
  pub build_prompt : Text → Context → S → Text
  pub run_with_tools : Provider → Text → Text → Text → S → Result Text Text × List Out × S

pub record Parts (S : Type 0) : Type 0 where
  pub set_network : Bool → S → Option Text × S
  pub reset_capsule : Bool → S → Option Text × S
  pub reset_pty : S → S
  pub ensure_pty : S → Option Text × S
  pub commit : Text → S → Result Text Text × S
  pub push : Option (Text → S → Result Text Text × S)
  pub resolve_digest : Option (Text → S → Result Text Text × S)
  pub update_image : Option (Text → S → Option Text × S)
  pub run_command : Text → S → Option Text × S
  pub apply_patch : Option (Text → S → Option Text × S)
  pub diff : S → Result Text (Text × List Text) × S
  pub revert : Option (S → Option Text × S)
  pub list_capsules : Option (S → Result Text (List CapsuleInfo) × S)
  pub list_agents : S → Result Text Listing × S
  pub serve_agents : Request → S → Result Text Listing × S
  pub agent : Option (AgentParts S)

-- The conversation beside the state of the parts.
pub record Held (S : Type 0) : Type 0 where
  pub outside : S
  pub context : Context

-- How a handler ends: its error, its events, and the state.
abbrev pub Handled : Type 0 → Type 0
Handled S = Option Text × List Out × S

module _ {S : Type 0} (parts : Parts S) where
  abbrev quietly : Option Text × S → Handled S
  quietly (e, s) = (e, [], s)

  abbrev then_freeze : (Text → S → Handled S) → Result Text Text × S → Handled S
  then_freeze next (err e, s) = (some e, [], s)
  then_freeze next (ok image, s) = next image s

  abbrev if_part : Option (Text → S → Result Text Text × S) → Text → S → Result Text Text × S
  if_part none image s = (ok image, s)
  if_part (some part) image s = part image s

  abbrev announced : Text → Option Text × S → Handled S
  announced digest (some e, s) = (some e, [], s)
  announced digest (none, s) = (none, freeze_created digest ∷ [], s)

  abbrev pinned_by : Option (Text → S → Option Text × S) → Text → S → Option Text × S
  pinned_by none digest s = (none, s)
  pinned_by (some update) digest s = update digest s

  -- The case of freeze: commit, publish, resolve, pin, and tell.
  unfoldable pub handle_freeze : Text → S → Handled S
  handle_freeze mode s =
      then_freeze
        (λ ref. λ s₁.
          then_freeze
            (λ published. λ s₂.
              then_freeze
                (λ digest. λ s₃. announced digest (pinned_by parts.update_image digest s₃))
                (if_part parts.resolve_digest published s₂))
            (if_part parts.push ref s₁))
        (parts.commit mode s)

  abbrev after_reset : Option Text × S → Handled S
  after_reset (some e, s) = (some e, [], s)
  after_reset (none, s) =
      (none, banner ∷ reset_completed ∷ [], (parts.ensure_pty (parts.reset_pty s)).1)

  -- The case of reset
  unfoldable pub handle_reset : Bool → S → Handled S
  handle_reset preserve s = after_reset (parts.reset_capsule preserve s)

  abbrev shown_diff : Result Text (Text × List Text) × S → Handled S
  shown_diff (err e, s) = (some e, [], s)
  shown_diff (ok (text, files), s) = (none, diff_ready text files ∷ [], s)

  abbrev after_patch : Option Text × S → Handled S
  after_patch (some e, s) = (some e, [], s)
  after_patch (none, s) = shown_diff (parts.diff s)

  abbrev listed : {A : Type 0} → (A → Out) → Result Text A × S → Handled S
  listed out (err e, s) = (some e, [], s)
  listed out (ok a, s) = (none, out a ∷ [], s)

  abbrev patched : Option (Text → S → Option Text × S) → Text → S → Handled S
  patched none patch s = (some (codes "patches not configured"), [], s)
  patched (some apply) patch s = after_patch (apply patch s)

  abbrev reverted : Option (S → Option Text × S) → S → Handled S
  reverted none s = (some (codes "patches not configured"), [], s)
  reverted (some revert_all) s = quietly (revert_all s)

  abbrev inventoried : Option (S → Result Text (List CapsuleInfo) × S) → S → Handled S
  inventoried none s = (some (codes "containers inventory not configured"), [], s)
  inventoried (some list) s = listed containers_list (list s)

  -- The cases of `Handle` but agent_prompt
  unfoldable pub handle_plain : Plain → S → Handled S
  handle_plain (network_toggle on) s = quietly (parts.set_network on s)
  handle_plain (reset preserve) s = handle_reset preserve s
  handle_plain (freeze mode) s = handle_freeze mode s
  handle_plain (run_command command) s = quietly (parts.run_command command s)
  handle_plain (apply_patch patch) s = patched parts.apply_patch patch s
  handle_plain revert s = reverted parts.revert s
  handle_plain containers s = inventoried parts.list_capsules s
  handle_plain agents s = listed agents_list (parts.list_agents s)
  handle_plain (change_agents request) s = listed agents_list (parts.serve_agents request s)

  abbrev key_of : Result Text Text → Text
  key_of (err e) = []
  key_of (ok key) = key

  abbrev pub secret_of : AgentParts S → Provider → S → Text
  secret_of agent p s = elim agent.secret [ none ↦ [] | some get ↦ key_of (get p.name s) ]

  -- The answer of the agent, and what is remembered of it.
  abbrev answered : Text → Held S → Result Text Text × List Out × S → Handled (Held S)
  answered content h (err e, outs, s) = (some e, outs, record h { outside = s })
  answered content h (ok answer, outs, s) =
      if is_empty (trim_space answer)
      then (
        none,
        outs ++ agent_message (codes "Agent returned empty response.") ∷ [],
        record h { outside = s },
      )
      else (
        none,
        outs,
        record h {
          outside = s;
          context =
              add_chat_turn (record { role = codes "assistant"; content = answer })
                (add_chat_turn (record { role = codes "user"; content = content }) h.context);
        },
      )

  abbrev prompted : AgentParts S → Text → Held S → Result Text Provider → Handled (Held S)
  prompted agent content h (err e) = (none, agent_message e ∷ [], h)
  prompted agent content h (ok p) = answered content h (
      agent.run_with_tools p (secret_of agent p h.outside)
        (agent.build_prompt content h.context h.outside) content h.outside)

  abbrev agent_or_none : Text → Held S → Option (AgentParts S) → Handled (Held S)
  agent_or_none content h none = (none, agent_message (codes "No agent runner configured.") ∷ [], h)
  agent_or_none content h (some agent) = prompted agent content h (agent.resolve_provider h.outside)

  -- `handleAgentPrompt`
  unfoldable pub handle_agent_prompt : Text → Held S → Handled (Held S)
  handle_agent_prompt content h =
      if is_empty (trim_space content)
      then (some (codes "prompt content required"), [], h)
      else agent_or_none content h parts.agent

  abbrev beside : Held S → Handled S → Handled (Held S)
  beside h (e, outs, s) = (e, outs, record h { outside = s })

  abbrev handle_body : Result Text Body → Held S → Handled (Held S)
  handle_body (err e) h = (some e, [], h)
  handle_body (ok (agent_prompt content)) h = handle_agent_prompt content h
  handle_body (ok (plain body)) h = beside h (handle_plain body h.outside)

  -- `Handle`
  unfoldable pub handle : Decoders → Text → Text → Held S → Handled (Held S)
  handle d kind payload h = handle_body (body_of d kind payload) h
