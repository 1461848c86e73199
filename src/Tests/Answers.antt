-- ===== src/Tests/Answers.antt =====
-- An agent's answer in a fence, and what a user sees of a written file.
use krellin.Prelude.{◌≡◌, refl, true, false, none, some, ◌++◌, if◌then◌else◌, replicate}
use krellin.Prelude.Text.{
  Text, codes, text_eq, is_empty, has_prefix, trim_prefix, trim_space, split,
}
use krellin.Session.Answers.{
  Json, tool_reply, fallback_final, plan_reply, unreadable, unplannable, with_final, from_envelope,
  read_answer, parse_tool_response, parse_plan_response,
}
use krellin.Session.Decoding.{
  normalize_agent_response, before_last, unfenced, wrapped, decode_first_json,
}
use krellin.Session.Answers.Enough.{read_answer-eq-parse}
use krellin.Session.Answers.Shape.{DefiniteReply, DefinitePlan, parse_tool_response-Definite}
use krellin.Session.Messages.{Labels}
use krellin.Session.Messages.Block.{write_preview}
use krellin.Session.Messages.Preview.{Bounded, write_preview-Bounded}

-- A library that reads one envelope.
abbrev json : Json
json = record {
  tool_envelope = λ t d.
      if has_prefix t (codes "{\"final\":\"done\"}")
      then (true, record d { final = codes "done" })
      else (false, d);
  plan_envelope = λ t d. (false, d);
  status = λ t d. (false, d);
  object = λ t d. (false, d);
  any_object = λ t d. (false, d);
  as_text = λ t. some t;
  marshal = λ m. none;
}

abbrev fenced : Text
fenced = codes "```json {\"final\":\"done\"} ```"

reads : parse_tool_response json fenced ≡ with_final (codes "done")
unfolding parse_tool_response read_answer normalize_agent_response unfenced wrapped before_last
    tool_reply decode_first_json from_envelope is_empty has_prefix trim_prefix trim_space text_eq
reads = refl

read_answer-eq-parse_example :
    (read_answer (tool_reply json) (fallback_final json) unreadable 5 fenced
      ≡ some (parse_tool_response json fenced))
    × (read_answer (plan_reply json) (λ text. unplannable) unplannable 5 fenced
        ≡ some (parse_plan_response json fenced))
read_answer-eq-parse_example = read_answer-eq-parse json fenced 3

parse_tool_response-Definite_example :
    DefiniteReply (parse_tool_response json fenced) × DefinitePlan (parse_plan_response json fenced)
parse_tool_response-Definite_example = parse_tool_response-Definite json fenced

-- Arguments that write nine lines.
abbrev labels : Labels
labels = record {
  command = λ t. none;
  shell = λ t. none;
  fields = λ t. none;
  path = λ t. none;
  search = λ t. none;
  written = λ t. some (codes "a.txt", codes "first" ++ (replicate 7 10 ++ replicate 300 97));
  quoted = λ t. t;
  upper = λ t. t;
}

write_preview-Bounded_example : Bounded (split 10 (write_preview labels (codes "{}")))
write_preview-Bounded_example = write_preview-Bounded labels (codes "{}")
