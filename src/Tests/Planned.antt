-- ===== src/Tests/Planned.antt =====
-- A plan of two steps whose first one fails once.
use krellin.Prelude.Int.{pos}
use krellin.Prelude.{refl, true, false, none, List, [], ◌∷◌, ◌++◌}
use krellin.Prelude.Text.{codes}
use krellin.Prelude.Result.{ok}
use krellin.Session.{ToolCall, ToolResult}
use krellin.Session.Rounds.{Hands}
use krellin.Session.Answers.{Json}
use krellin.Session.Messages.{Labels}
use krellin.Session.Agent.{session_readings}
use krellin.Session.Planned.{Readings, Desk, Work, run_steps}
use krellin.Session.Planned.Covered.{Run, Logs, Ends, run_steps-Ends}

-- The state is the log of the tools that were run; the first one fails.
abbrev result_for : List Run → ToolCall → ToolResult
result_for [] call = record {
  tool = call.tool;
  args = call.args;
  output = [];
  exit_code = pos 1;
  error = [];
}
result_for (run ∷ runs) call = record {
  tool = call.tool;
  args = call.args;
  output = [];
  exit_code = pos 0;
  error = [];
}

abbrev hands : Hands (List Run)
hands = record {
  ask = λ prompt log. (ok (codes "again"), log);
  execute = λ call log. (result_for log call, log ++ (call, result_for log call) ∷ []);
  say = λ message log. log;
  read_reply = λ resp. record { calls = []; final = resp; readable = true };
}

hands-Logs : Logs hands (λ log. log)
hands-Logs = record {
  executes = λ call log. refl;
  asks = λ prompt log. refl;
  says = λ text log. refl;
}

-- A library that reads a status only.
abbrev json : Json
json = record {
  tool_envelope = λ t d. (false, d);
  plan_envelope = λ t d. (false, d);
  status = λ t d. (true, codes "retry");
  object = λ t d. (false, d);
  any_object = λ t d. (false, d);
  as_text = λ t. none;
  marshal = λ m. none;
}

abbrev labels : Labels
labels = record {
  command = λ t. none;
  shell = λ t. none;
  fields = λ t. none;
  path = λ t. none;
  search = λ t. none;
  written = λ t. none;
  quoted = λ t. t;
  upper = λ t. t;
}

abbrev readings : Readings
readings = session_readings json labels (λ t. t)

abbrev steps : List ToolCall
steps =
    record { tool = codes "shell"; args = [] }
    ∷ record { tool = codes "write_file"; args = [] }
    ∷ []

abbrev desk : Desk (List Run)
desk = record { plan = none; outside = [] }

abbrev work : Work
work = record { request = codes "do"; steps = steps }

run_steps-Ends_example :
    Ends (λ log. log) steps 0 work [] desk (run_steps hands readings steps 0 work [] desk)
run_steps-Ends_example = run_steps-Ends hands readings (λ log. log) hands-Logs steps 0 work [] desk
