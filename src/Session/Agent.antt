-- ===== src/Session/Agent.antt =====
-- The agent of a session: `runAgentWithTools` with the tools of `executeTool`, the reading of answers, and the messages
-- of `emitAgentMessage`; and what `runPlanned` reads and says. The runner of prompts and the JSON library are
-- parameters.
use krellin.Prelude.{
  false, suc, ◌+◌, ◌≤◌, ◌≡◌, refl, Option, List, [], ◌∷◌, ◌++◌, arith, length, length-append,
}
use krellin.Prelude.Text.{Text}
use krellin.Prelude.Result.{Result}
use krellin.Session.{ToolCall, ToolResult}
use krellin.Session.Rounds.{Enforce, Hands, tool_max_rounds}
use krellin.Session.Rounds.Bounded.{Counts, run_rounds-Within}
use krellin.Session.Answers.{Json, parse_tool_response, parse_plan_response, parse_status}
use krellin.Session.Messages.{Labels, format_plan_steps, format_step_result}
use krellin.Session.Planned.{Readings, Desk}
use krellin.Session.Planned.Whole.{run_agent_with_tools}
use krellin.Session.Toolbox.{Codec, Command}
use krellin.Session.Toolbox.Executed.{Executed, Session, execute_tool}

-- A session with the prompts that were made and the messages that were emitted.
pub record Conversation (S : Type 0) : Type 0 where
  pub session : Session S
  pub prompts : List Text
  pub messages : List Text

-- How a planned execution reads what the agent answers, and what it tells, where `lower` is `strings.ToLower`.
abbrev pub session_readings : Json → Labels → (Text → Text) → Readings
session_readings json labels lower = record {
  read_plan = parse_plan_response json;
  read_status = parse_status json lower;
  plan_message = format_plan_steps labels;
  step_message = format_step_result labels;
}

module _ {S : Type 0} (codec : Codec) (exec : Option (Command → S → Executed × S))
    (runner : Text → S → Result Text Text × S) (json : Json) where
  abbrev ask : Text → Conversation S → Result Text Text × Conversation S
  ask prompt c =
      let (answer, after) = runner prompt c.session.capsule in
      (
        answer,
        record c {
          session = record c.session { capsule = after };
          prompts = c.prompts ++ prompt ∷ [];
        },
      )

  abbrev execute : ToolCall → Conversation S → ToolResult × Conversation S
  execute call c =
      let (res, after) = execute_tool codec exec call c.session in
      (res, record c { session = after })

  abbrev say : Text → Conversation S → Conversation S
  say text c = record c { messages = c.messages ++ text ∷ [] }

  abbrev pub session_hands : Hands (Conversation S)
  session_hands = record {
    ask = ask;
    execute = execute;
    say = say;
    read_reply = parse_tool_response json;
  }

  session-Counts : Counts session_hands (λ c. length c.prompts) (λ c. length c.messages)
  session-Counts = record {
    ask_asks = λ prompt c. omega (arith, length-append c.prompts (prompt ∷ []));
    ask_says = λ prompt c. refl;
    execute_asks = λ call c. refl;
    execute_says = λ call c. refl;
    say_asks = λ text c. refl;
    say_says = λ text c. omega (arith, length-append c.messages (text ∷ []));
  }

  -- Whatever the agent answers and the capsule does, `runAgentWithTools` makes at most eight prompts and emits just one
  -- message for a request that is not one for several steps. Requests for several steps are planned first, with prompts
  -- and messages of their own.
  pub length-run_agent_with_tools :
      (readings : Readings) (e : Enforce) (content : Text) (d : Desk (Conversation S))
      → e.multi ≡ false
      → (length (run_agent_with_tools session_hands readings e content d).1.outside.prompts
          ≤ length d.outside.prompts + tool_max_rounds)
        × (length (run_agent_with_tools session_hands readings e content d).1.outside.messages
            ≡ suc (length d.outside.messages))
  unfolding run_agent_with_tools
  length-run_agent_with_tools readings e content d single = rw single (
      run_rounds-Within session_hands (λ c. length c.prompts) (λ c. length c.messages)
        session-Counts (record e { multi = false }) content d.outside)
