-- ===== src/Session/Rounds/Enforced.antt =====
-- What an answer of `runAgentWithTools` has behind it.
use mathlib.Core.Path.{subst}
use krellin.Prelude.{
  ℕ, zero, suc, ◌≡◌, inl, inr, false, not, ◌&&◌, ◌||◌, none, List, [], arith, ltb, length,
  Option-cases, if_both,
}
use krellin.Prelude.Text.{Text, is_empty}
use krellin.Prelude.Result.{Result, ok, err}
use krellin.Session.{ToolResult}
use krellin.Session.Prompts.{build_tool_prompt}
use krellin.Session.Rounds.{
  Enforce, Outcome, agent_failed, answered, plain, limit_reached, Reply, Hands, Next, stops,
  goes_on, held_back, has_any_tool_result, has_write_result, on_final, on_reply, on_answer,
  one_round, rounds, run_rounds,
}

-- The condition under which an outcome may be given on the results so far.
abbrev pub Earned : Enforce → Outcome → List ToolResult → Type 0
Earned e (answered final) results =
    ((e.tools && not (has_any_tool_result results)) ≡ false)
    × ((e.multi && ltb (length results) 2) ≡ false)
    × ((e.write && not (has_write_result results)) ≡ false)
Earned e (plain resp) results = e.tools ≡ false
Earned e agent_failed results = Unit
Earned e limit_reached results = Unit

abbrev Fair : {S : Type 0} → Enforce → List ToolResult → Next S → Type 0
Fair e results (stops outcome s) = Earned e outcome results
Fair e results (goes_on content now s) = Unit

held_back-eq-none :
    (e : Enforce) (results : List ToolResult) (final : Text)
    → held_back e results ≡ none
    → Earned e (answered final) results
unfolding held_back
held_back-eq-none e results final h = (ground arith, ground arith, ground arith)

module _ {S : Type 0} (hands : Hands S) where
  on_final-Fair :
      (e : Enforce) (base final : Text) (results : List ToolResult) (s : S)
      → Fair e results (on_final hands e base final results s)
  on_final-Fair e base final results s = elim (Option-cases (held_back e results)) [
    | inl none_held ↦ rw (none_held, Fair) (held_back-eq-none e results final none_held)
    | inr (reminder, some_held) ↦ rw (some_held, Fair) tt
  ]

  on_reply-Fair :
      (e : Enforce) (base content : Text) (results : List ToolResult) (resp : Text) (reply : Reply)
      (s : S)
      → Fair e results (on_reply hands e base content results resp reply s)
  on_reply-Fair e base content results resp reply s =
      if_both (Fair e results) (not (is_empty reply.final)) _ _
        (λ _. on_final-Fair e base reply.final results s)
        (λ _.
          if_both (Fair e results) (not reply.readable || not (ltb 0 (length reply.calls))) _ _
            (λ _. if_both (Fair e results) e.tools _ _ (λ _. tt) (λ off. off)) (λ _. tt))

  on_answer-Fair :
      (e : Enforce) (base content : Text) (results : List ToolResult) (a : Result Text Text × S)
      → Fair e results (on_answer hands e base content results a)
  on_answer-Fair e base content results (err x, s) = tt
  on_answer-Fair e base content results (ok resp, s) =
      on_reply-Fair e base content results resp (hands.read_reply resp) s

  one_round-Fair :
      (e : Enforce) (base content : Text) (results : List ToolResult) (s : S)
      → Fair e results (one_round hands e base content results s)
  unfolding one_round
  one_round-Fair e base content results s =
      on_answer-Fair e base content results (hands.ask (build_tool_prompt content results) s)

  Ends : Enforce → Outcome × List ToolResult × S → Type 0
  Ends e (outcome, results, s) = Earned e outcome results

  rounds-Earned :
      (left : ℕ) (e : Enforce) (base content : Text) (results : List ToolResult) (s : S)
      → Ends e (rounds hands left e base content results s)
  unfolding rounds Ends
  rounds-Earned zero e base content results s = tt
  rounds-Earned (suc left) e base content results s =
      elim (one_round hands e base content results s)
          as (λ n.
            Fair e results n
            → Ends e (elim n [
              | stops outcome after ↦ (outcome, results, after)
              | goes_on next now after ↦ rounds hands left e base next now after
            ])) [
              | stops outcome after ↦ λ fair. fair
              | goes_on next now after ↦ λ _. rounds-Earned left e base next now after
            ]
        (one_round-Fair e base content results s)

  -- A final answer is given only where the request's conditions are met: a tool has been called where tools
  -- are required, two where several steps are, and a file has been written or patched where a
  -- change is; an answer in plain words is given only where tools are not required.
  pub run_rounds-Earned :
      (e : Enforce) (base : Text) (s : S) (outcome : Outcome) (results : List ToolResult)
      (after : S)
      → run_rounds hands e base s ≡ (outcome, results, after)
      → Earned e outcome results
  unfolding run_rounds Ends
  run_rounds-Earned e base s outcome results after h =
      subst (Ends e) h (rounds-Earned 8 e base base [] s)
