-- ===== src/Tests/Session.antt =====
-- A session on small conversations.
use krellin.Prelude.{
  ◌↔◌, ◌≤◌, length, ℕ, suc, ◌≡◌, refl, ◌+◌, true, false, Option, none, some, [], ◌∷◌, arith,
}
use krellin.Prelude.Text.{Text, codes, is_empty}
use krellin.Session.{ToolCall}
use krellin.Session.Rounds.{
  Enforce, answered, Hands, held_back, one_round, rounds, run_rounds, tool_max_rounds,
}
use krellin.Prelude.Int.{pos, pos}
use krellin.Prelude.Result.{ok, Result}
use krellin.Session.Context.{Context, ChatTurn}
use krellin.Session.Plan.{PlanState}
use krellin.Session.Answers.{Json}
use krellin.Session.Agent.{
  Conversation, session_hands, session_readings, length-run_agent_with_tools,
}
use krellin.Session.Messages.{Labels}
use krellin.Session.Planned.{Readings, Desk}
use krellin.Session.Planned.Whole.{run_agent_with_tools}
use krellin.Session.Planned.Whole.Ended.{Ended}
use krellin.Session.Terminal.{Shell, Terminals, panicked, run_command}
use krellin.Session.Terminal.Panics.{Missing, run_command-panics}
use krellin.Session.Toolbox.{Codec, Command, command_of}
use krellin.Session.Toolbox.Executed.{Executed, Session}
use krellin.Session.Toolbox.Commands.{Placed, ReadsInside, command_of-Placed, read_file-Inside}

abbrev turn : ChatTurn
turn = record { role = codes "user"; content = codes "hi" }

abbrev quiet : Context
quiet = record { chat_history = []; tool_summaries = [] }

abbrev call : ToolCall
call = record { tool = codes "read_file"; args = codes "a" }

abbrev plan : PlanState
plan = record { request = codes "x then y"; steps = call ∷ call ∷ []; index = 0 }

-- An agent that always calls the tool; the state counts the prompts and the messages.
abbrev hands : Hands (ℕ × ℕ)
hands = record {
  ask = λ prompt s. (ok (codes "call"), (suc s.0, s.1));
  execute = λ c s.
      (record { tool = c.tool; args = c.args; output = []; exit_code = pos 0; error = [] }, s);
  say = λ text s. (s.0, suc s.1);
  read_reply = λ text. record { calls = call ∷ []; final = []; readable = true };
}

abbrev enforce : Enforce
enforce = record { tools = true; write = false; multi = false }

-- An agent that answers at once.
abbrev answering : Hands ℕ
answering = record {
  ask = λ prompt s. (ok (codes "done"), s);
  execute = λ c s.
      (record { tool = c.tool; args = c.args; output = []; exit_code = pos 0; error = [] }, s);
  say = λ text s. suc s;
  read_reply = λ text. record { calls = []; final = text; readable = true };
}

abbrev free : Enforce
free = record { tools = false; write = false; multi = false }

answers : run_rounds answering free (codes "hi") 0 ≡ (answered (codes "done"), [], 1)
unfolding run_rounds rounds one_round held_back is_empty
answers = refl

abbrev labels : Labels
labels = record {
  command = λ t. none;
  shell = λ t. none;
  fields = λ t. none;
  path = λ t. none;
  search = λ t. none;
  written = λ t. none;
  quoted = λ t. t;
  upper = λ t. t;
}

abbrev json : Json
json = record {
  tool_envelope = λ t d. (true, record d { tool = codes "read_file"; args = t });
  plan_envelope = λ t d. (false, d);
  status = λ t d. (false, d);
  object = λ t d. (false, d);
  any_object = λ t d. (false, d);
  as_text = λ t. none;
  marshal = λ m. none;
}

abbrev readings : Readings
readings = session_readings json labels (λ t. t)

abbrev codec : Codec
codec = record {
  shell_args = λ text. none;
  read_args = λ text. some text;
  write_args = λ text. some (text, text);
  list_args = λ text. some (record { path = text; recursive = true; max_depth = pos 0 });
  search_args = λ text. none;
  patch_args = λ text. some text;
  base64 = λ text. text;
}

command_of-Placed_example : Placed (command_of codec call)
command_of-Placed_example = command_of-Placed codec call

read_file-Inside_example :
    ReadsInside (command_of codec (record { tool = codes "read_file"; args = codes "src/../a" }))
read_file-Inside_example = read_file-Inside codec (codes "src/../a")

abbrev exec : Option (Command → ℕ → Executed × ℕ)
exec = some (λ c n. (record { output = c.text; exit_code = pos 0; error = none }, suc n))

abbrev session : Session ℕ
session = record { capsule = 0; context = quiet; shown = [] }

abbrev careful : Enforce
careful = record { tools = true; write = true; multi = false }

-- A terminal that takes one byte at a time; attaching fails.
abbrev terminals : Terminals ℕ
terminals = record {
  attach = λ n. (some (codes "no such container"), n);
  close = λ n. n;
  write = λ text n. (ok 1, suc n);
}

moves : (c : ℕ) (text : Text) (s n : ℕ) → (terminals.write (c ∷ text) s).0 ≡ ok n → 1 ≤ n
moves c text s n e = ground arith

-- After a failed attachment.
abbrev shell : Shell ℕ
shell = record {
  outside = 0;
  once_done = true;
  attached = false;
  pty_errors = codes "no such container" ∷ [];
}

run_command-panics_example :
    ((run_command terminals true (codes "ls") shell).0 ≡ panicked) ↔ Missing true shell
run_command-panics_example =
    run_command-panics terminals moves true (codes "ls") shell (unfold is_empty in refl)

-- An agent that always reads a file, in a session with a capsule.
abbrev runner : Text → ℕ → Result Text Text × ℕ
runner prompt n = (ok (codes "{\"tool\": \"read_file\"}"), n)

abbrev conversation : Conversation ℕ
conversation = record { session = session; prompts = []; messages = [] }

abbrev desk : Desk (Conversation ℕ)
desk = record { plan = none; outside = conversation }

length-run_agent_with_tools_example :
    (length
        (run_agent_with_tools
          (session_hands codec exec runner json)
          readings
          enforce
          (codes "read a file")
          desk).1.outside.prompts
      ≤ 0 + tool_max_rounds)
    × (length
          (run_agent_with_tools
            (session_hands codec exec runner json)
            readings
            enforce
            (codes "read a file")
            desk).1.outside.messages
        ≡ 1)
length-run_agent_with_tools_example =
    length-run_agent_with_tools codec exec runner json readings enforce (codes "read a file") desk
      refl
