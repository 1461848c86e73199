-- ===== src/Session/Answers.antt =====
-- The reading of an agent's answers in internal/session/agent_tools.go: `parseToolResponse`, `parsePlanResponse` and the decoding in `evaluateStep`. The JSON library is a parameter.
pub mod Holds
pub mod Enough
pub mod Shape
use krellin.Prelude.{
  ℕ, zero, suc, Bool, true, false, not, ◌&&◌, ◌||◌, Option, none, some, List, [], ◌∷◌, ◌++◌, ltb,
  ◌==◌, if◌then◌else◌, length,
}
use krellin.Prelude.Text.{
  Text, codes, text_eq, is_empty, has_prefix, trim_prefix, trim_space, contains,
}
use krellin.Prelude.Dict.{Dict, lookup}
use krellin.Tools.Scan.{open_brace, close_brace, quote, push, extract_first_json}
use krellin.Session.{ToolCall}
use krellin.Session.Rounds.{Reply}
use krellin.Session.Planned.{PlanReply}
use krellin.Session.Decoding.{Decode, normalize_agent_response, decode_first_json}

pub record ToolEnvelope : Type 0 where
  pub tool_calls : List ToolCall
  pub tool_call : Option ToolCall
  pub tool : Text
  pub args : Text
  pub final : Text

pub record PlanEnvelope : Type 0 where
  pub steps : List ToolCall
  pub question : Text

-- The JSON library: the decoding of each type, of a value as a text, and the printing of an object. Of the values of
-- an object of any kind only the strings are looked at.
pub record Json : Type 0 where
  pub tool_envelope : Decode ToolEnvelope
  pub plan_envelope : Decode PlanEnvelope
  pub status : Decode Text
  pub object : Decode (Dict Text)
  pub any_object : Decode (Dict (Option Text))
  pub as_text : Text → Option Text
  pub marshal : Dict Text → Option Text

abbrev pub unplannable : PlanReply
unplannable = record { steps = []; question = []; readable = false }

abbrev pub unreadable : Reply
unreadable = record { calls = []; final = []; readable = false }

abbrev pub with_final : Text → Reply
with_final final = record { calls = []; final = final; readable = true }

abbrev with_calls : List ToolCall → Reply
with_calls calls = record { calls = calls; final = []; readable = true }

abbrev pub call_of : Text → Text → Reply
call_of tool args = with_calls (record { tool = tool; args = args } ∷ [])

-- A text that counts.
abbrev pub filled : Option Text → Option Text
filled none = none
filled (some t) = if is_empty t then none else some t

abbrev pub or_else : {A : Type 0} → Option A → A → A
or_else none a = a
or_else (some b) a = b

abbrev pub bound : {A B : Type 0} → Option A → (A → Option B) → Option B
bound none f = none
bound (some a) f = f a

-- The entries but those of `tool` and `final`.
unfoldable pub arguments : Dict Text → Dict Text
arguments [] = []
arguments ((k, v) ∷ m) =
    let rest = arguments m in
    if text_eq k (codes "tool") || text_eq k (codes "final") then rest else (k, v) ∷ rest

module _ (json : Json) where
  abbrev pub marshalled : Text → Dict Text → Option Reply
  marshalled tool [] = none
  marshalled tool (entry ∷ m) = bound (json.marshal (entry ∷ m)) λ args. some (call_of tool args)

  abbrev pub given_args : Text → Dict Text → Option Text → Option Reply
  given_args tool single (some args) = some (call_of tool args)
  given_args tool single none = marshalled tool (arguments single)

  -- `{"tool": …, "args": …}`, or the arguments beside the tool
  unfoldable pub tool_in : Dict Text → Option Reply
  unfolding arguments lookup
  tool_in single = bound (lookup (codes "tool") single) λ raw.
      bound (filled (json.as_text raw))
        λ tool. given_args tool single (lookup (codes "args") single)

  unfoldable pub final_in : Dict Text → Option Reply
  unfolding lookup
  final_in single =
      bound (lookup (codes "final") single)
        λ raw. bound (filled (json.as_text raw)) λ final. some (with_final final)

  -- An object of any shape.
  unfoldable pub from_object : Dict Text → Reply
  unfolding tool_in final_in
  from_object ((tool, args) ∷ []) = call_of tool args
  from_object single = or_else (final_in single) (or_else (tool_in single) unreadable)

  abbrev pub if_object : Bool × Dict Text → Reply
  if_object (false, single) = unreadable
  if_object (true, single) = from_object single

  -- What an envelope asks for.
  abbrev pub from_call : Text → ToolEnvelope → Option ToolCall → Reply
  from_call resp env (some call) = with_calls (call ∷ [])
  from_call resp env none =
      if not (is_empty env.tool)
      then call_of env.tool env.args
      else if_object (decode_first_json json.object resp [])

  unfoldable pub from_envelope : Text → ToolEnvelope → Reply
  unfolding decode_first_json from_object
  from_envelope resp env =
      if not (is_empty env.final)
      then with_final env.final
      else if ltb 0 (length env.tool_calls)
      then with_calls env.tool_calls
      else from_call resp env env.tool_call

  abbrev no_envelope : ToolEnvelope
  no_envelope = record { tool_calls = []; tool_call = none; tool = []; args = []; final = [] }

  abbrev pub if_envelope : Text → Bool × ToolEnvelope → Option Reply
  if_envelope resp (false, env) = none
  if_envelope resp (true, env) = some (from_envelope resp env)

  -- The answer to a decoded envelope, if one is found.
  unfoldable pub tool_reply : Text → Option Reply
  unfolding decode_first_json from_envelope
  tool_reply resp = if_envelope resp (decode_first_json json.tool_envelope resp no_envelope)

  abbrev pub final_of : Bool × Dict (Option Text) → Reply
  final_of (false, m) = unreadable
  final_of (true, m) =
      or_else (bound (lookup (codes "final") m) λ v. bound (filled v) λ f. some (with_final f))
        unreadable

  -- The last resort: a `final` in an object that is no envelope.
  unfoldable pub fallback_final : Text → Reply
  unfolding decode_first_json lookup contains
  fallback_final resp =
      if contains resp (quote ∷ (codes "final" ++ quote ∷ []))
      then final_of (decode_first_json json.any_object resp [])
      else unreadable

  abbrev pub from_plan : Bool × PlanEnvelope → Option PlanReply
  from_plan (false, env) = none
  from_plan (true, env) =
      if not (is_empty env.question)
      then some (record { steps = []; question = env.question; readable = true })
      else if ltb 0 (length env.steps)
      then some (record { steps = env.steps; question = []; readable = true })
      else none

  unfoldable pub plan_reply : Text → Option PlanReply
  unfolding decode_first_json
  plan_reply resp =
      from_plan (decode_first_json json.plan_envelope resp (record { steps = []; question = [] }))

-- How an answer is read: what is accepted, or else the first object in it is read in its place, or else the last
-- resort counts. `none` stands for the end of the fuel.
module _ {R : Type 0} (accept : Text → Option R) (last_resort : Text → R) (nothing : R) where
  abbrev pub inner_if : Bool → (Text → Option R) → Text → Text → Option R
  inner_if true again resp object = again object
  inner_if false again resp object = some (last_resort resp)

  abbrev pub inner : (Text → Option R) → Text → Text → Option R
  inner again resp object =
      inner_if (not (is_empty object) && not (text_eq object resp)) again resp object

  abbrev pub or_inner : (Text → Option R) → Text → Option R → Option R
  or_inner again resp (some r) = some r
  or_inner again resp none = inner again resp (extract_first_json resp)

  abbrev pub read_if : Bool → (Text → Option R) → Text → Option R
  read_if true again resp = some nothing
  read_if false again resp = or_inner again resp (accept resp)

  abbrev pub read_normal : (Text → Option R) → Text → Option R
  read_normal again resp = read_if (is_empty resp) again resp

  unfoldable pub read_answer : ℕ → Text → Option R
  read_answer zero text = none
  read_answer (suc fuel) text = read_normal (read_answer fuel) (normalize_agent_response text)

-- `parseToolResponse`
unfoldable pub parse_tool_response : Json → Text → Reply
unfolding tool_reply fallback_final read_answer
parse_tool_response json resp =
    or_else (read_answer (tool_reply json) (fallback_final json) unreadable 2 resp) unreadable

-- `parsePlanResponse`
unfoldable pub parse_plan_response : Json → Text → PlanReply
unfolding plan_reply read_answer
parse_plan_response json resp =
    or_else (read_answer (plan_reply json) (λ text. unplannable) unplannable 2 resp) unplannable

abbrev status_found : (Text → Text) → Bool × Text → Option Text
status_found lower (false, status) = none
status_found lower (true, status) = some (lower (trim_space status))

-- The status in the answer to `evaluateStep`, where `lower` is `strings.ToLower`.
unfoldable pub parse_status : Json → (Text → Text) → Text → Option Text
unfolding decode_first_json normalize_agent_response
parse_status json lower resp =
    status_found lower (decode_first_json json.status (normalize_agent_response resp) [])
