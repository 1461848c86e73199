-- ===== src/Session/Answers/Shape.antt =====
-- What the reading of answers gives is one of three things: nothing readable, a text, or calls.
use krellin.Prelude.{
  ◌≡◌, refl, ◌⊎◌, inl, inr, Bool, true, false, not, Option, none, some, List, [], ◌∷◌, ◌++◌, arith,
  ltb, length, if_both,
}
use krellin.Prelude.Text.{Text, codes, is_empty, contains}
use krellin.Tools.Scan.{quote}
use krellin.Prelude.Dict.{Dict, lookup}
use krellin.Session.{ToolCall}
use krellin.Session.Rounds.{Reply}
use krellin.Session.Planned.{PlanReply}
use krellin.Session.Answers.{
  Json, ToolEnvelope, PlanEnvelope, bound, filled, or_else, arguments, unreadable, unplannable,
  tool_in, final_in, from_object, from_envelope, tool_reply, fallback_final, call_of, with_final,
  marshalled, given_args, if_object, from_call, if_envelope, final_of, from_plan, plan_reply,
  parse_tool_response, parse_plan_response,
}
use krellin.Session.Decoding.{decode_first_json}
use krellin.Session.Answers.Holds.{
  AllOf, read_answer-AllOf, or_else-AllOf, filled-AllOf, bound-AllOf, bound_any-AllOf,
}

-- A text or calls where it is readable, and never both; nothing where it is not.
abbrev Definite : Bool → Text → List ToolCall → Type 0
Definite false text calls = (text ≡ []) × (calls ≡ [])
Definite true text calls =
    ((is_empty text ≡ false) × (calls ≡ [])) ⊎ ((text ≡ []) × (ltb 0 (length calls) ≡ true))

abbrev pub DefiniteReply : Reply → Type 0
DefiniteReply r = Definite r.readable r.final r.calls

abbrev pub DefinitePlan : PlanReply → Type 0
DefinitePlan r = Definite r.readable r.question r.steps

text_final : (o : Option Text) → AllOf DefiniteReply (bound (filled o) λ f. some (with_final f))
text_final o =
    bound-AllOf (λ t. is_empty t ≡ false) DefiniteReply (filled o) (λ f. some (with_final f))
      (filled-AllOf o) (λ final e. inl (e, refl))

called : (tool args : Text) → DefiniteReply (call_of tool args)
called tool args = inr (refl, refl)

unreadable-Definite : DefiniteReply unreadable
unreadable-Definite = (refl, refl)

module _ (json : Json) where
  marshalled-Definite : (tool : Text) (m : Dict Text) → AllOf DefiniteReply (marshalled json tool m)
  marshalled-Definite tool [] = tt
  marshalled-Definite tool (entry ∷ m) =
      bound_any-AllOf DefiniteReply (json.marshal (entry ∷ m)) (λ args. some (call_of tool args))
        (λ args. called tool args)

  given_args-Definite :
      (tool : Text) (single : Dict Text) (o : Option Text)
      → AllOf DefiniteReply (given_args json tool single o)
  given_args-Definite tool single (some args) = called tool args
  given_args-Definite tool single none = marshalled-Definite tool (arguments single)

  abbrev tool_of : Dict Text → Text → Option Reply
  tool_of single raw =
      bound (filled (json.as_text raw))
        λ tool. given_args json tool single (lookup (codes "args") single)

  tool_in-Definite : (single : Dict Text) → AllOf DefiniteReply (tool_in json single)
  unfolding tool_in lookup
  tool_in-Definite single =
      bound_any-AllOf DefiniteReply (lookup (codes "tool") single) (λ raw. tool_of single raw)
        λ raw.
          bound_any-AllOf DefiniteReply (filled (json.as_text raw))
            (λ tool. given_args json tool single (lookup (codes "args") single))
            λ tool. given_args-Definite tool single (lookup (codes "args") single)

  final_in-Definite : (single : Dict Text) → AllOf DefiniteReply (final_in json single)
  unfolding final_in lookup
  final_in-Definite single =
      bound_any-AllOf DefiniteReply (lookup (codes "final") single)
        (λ raw. bound (filled (json.as_text raw)) λ final. some (with_final final))
        λ raw. text_final (json.as_text raw)

  some_shape :
      (single : Dict Text)
      → DefiniteReply (or_else (final_in json single) (or_else (tool_in json single) unreadable))
  some_shape single =
      or_else-AllOf DefiniteReply (final_in json single) _ (final_in-Definite single) (
        or_else-AllOf DefiniteReply (tool_in json single) _ (tool_in-Definite single)
          unreadable-Definite)

  from_object-Definite : (single : Dict Text) → DefiniteReply (from_object json single)
  unfolding from_object
  from_object-Definite [] = some_shape []
  from_object-Definite ((tool, args) ∷ []) = called tool args
  from_object-Definite (entry ∷ other ∷ single) = some_shape (entry ∷ other ∷ single)

  if_object-Definite : (r : Bool × Dict Text) → DefiniteReply (if_object json r)
  if_object-Definite (false, single) = unreadable-Definite
  if_object-Definite (true, single) = from_object-Definite single

  from_call-Definite :
      (resp : Text) (env : ToolEnvelope) (o : Option ToolCall)
      → DefiniteReply (from_call json resp env o)
  from_call-Definite resp env (some call) = inr (refl, refl)
  from_call-Definite resp env none =
      if_both DefiniteReply (not (is_empty env.tool)) _ _ (λ e. called env.tool env.args)
        (λ e. if_object-Definite _)

  from_envelope-Definite :
      (resp : Text) (env : ToolEnvelope) → DefiniteReply (from_envelope json resp env)
  unfolding from_envelope
  from_envelope-Definite resp env =
      if_both DefiniteReply (not (is_empty env.final)) _ _ (λ e. inl (ground arith, refl))
        (λ e.
          if_both DefiniteReply (ltb 0 (length env.tool_calls)) _ _ (λ f. inr (refl, f))
            (λ f. from_call-Definite resp env env.tool_call))

  if_envelope-Definite :
      (resp : Text) (r : Bool × ToolEnvelope) → AllOf DefiniteReply (if_envelope json resp r)
  if_envelope-Definite resp (false, env) = tt
  if_envelope-Definite resp (true, env) = from_envelope-Definite resp env

  final_of-Definite : (r : Bool × Dict (Option Text)) → DefiniteReply (final_of json r)
  unfolding lookup
  final_of-Definite (false, m) = unreadable-Definite
  final_of-Definite (true, m) =
      or_else-AllOf DefiniteReply
        (bound (lookup (codes "final") m) λ v. bound (filled v) λ f. some (with_final f)) _
        (bound_any-AllOf DefiniteReply (lookup (codes "final") m)
          (λ v. bound (filled v) λ f. some (with_final f)) λ v. text_final v)
        unreadable-Definite

  fallback_final-Definite : (resp : Text) → DefiniteReply (fallback_final json resp)
  unfolding fallback_final
  fallback_final-Definite resp =
      if_both DefiniteReply (contains resp (quote ∷ (codes "final" ++ quote ∷ [])))
        (final_of json (decode_first_json json.any_object resp [])) unreadable
        (λ e. final_of-Definite (decode_first_json json.any_object resp []))
        (λ e. unreadable-Definite)

  tool_reply-Definite : (resp : Text) → AllOf DefiniteReply (tool_reply json resp)
  unfolding tool_reply
  tool_reply-Definite resp = if_envelope-Definite resp _

  from_plan-Definite : (r : Bool × PlanEnvelope) → AllOf DefinitePlan (from_plan json r)
  from_plan-Definite (false, env) = tt
  from_plan-Definite (true, env) =
      if_both (AllOf DefinitePlan) (not (is_empty env.question)) _ _ (λ e. inl (ground arith, refl))
        (λ e.
          if_both (AllOf DefinitePlan) (ltb 0 (length env.steps)) _ _ (λ f. inr (refl, f))
            (λ f. tt))

  -- Whatever an agent answers and the JSON library makes of it: a reply of `parseToolResponse` that could be read has
  -- a final text or at least one call and not both, and one that could not has neither; so it is with the question
  -- and the steps of `parsePlanResponse`.
  pub parse_tool_response-Definite :
      (resp : Text)
      → DefiniteReply (parse_tool_response json resp) × DefinitePlan (parse_plan_response json resp)
  unfolding parse_tool_response parse_plan_response plan_reply
  parse_tool_response-Definite resp = (
    or_else-AllOf DefiniteReply _ unreadable
        (read_answer-AllOf (tool_reply json) (fallback_final json) unreadable DefiniteReply
          tool_reply-Definite fallback_final-Definite unreadable-Definite 2 resp)
        unreadable-Definite,
    or_else-AllOf DefinitePlan _ unplannable
        (read_answer-AllOf (plan_reply json) (λ text. unplannable) unplannable DefinitePlan
          (λ t. from_plan-Definite _) (λ t. (refl, refl)) (refl, refl) 2 resp)
        (refl, refl),
  )
