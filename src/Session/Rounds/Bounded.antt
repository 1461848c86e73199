-- ===== src/Session/Rounds/Bounded.antt =====
-- `runAgentWithTools`: how often the agent is asked and the user is told.
use krellin.Prelude.{
  ℕ, zero, suc, ◌+◌, ◌≤◌, ◌≡◌, refl, ap, ◌∙◌, inl, inr, not, ◌&&◌, ◌||◌, List, [], ◌∷◌, ◌++◌, arith,
  ltb, length, Bool-cases, Option-cases, if_both,
}
use krellin.Prelude.Text.{Text, codes, is_empty}
use krellin.Prelude.Result.{Result, ok, err}
use krellin.Session.{ToolCall, ToolResult}
use krellin.Session.Prompts.{build_tool_prompt}
use krellin.Session.Rounds.{
  Enforce, Outcome, Reply, Hands, Next, stops, goes_on, held_back, write_due, writes_file, refused,
  run_calls, on_final, on_reply, on_answer, one_round, rounds, run_rounds, tool_max_rounds,
}

-- Counters of the prompts and of the messages in the state of a session.
pub record Counts {S : Type 0} (hands : Hands S) (asks says : S → ℕ) : Type 0 where
  pub ask_asks : (prompt : Text) (s : S) → asks (hands.ask prompt s).1 ≡ suc (asks s)
  pub ask_says : (prompt : Text) (s : S) → says (hands.ask prompt s).1 ≡ says s
  pub execute_asks : (call : ToolCall) (s : S) → asks (hands.execute call s).1 ≡ asks s
  pub execute_says : (call : ToolCall) (s : S) → says (hands.execute call s).1 ≡ says s
  pub say_asks : (text : Text) (s : S) → asks (hands.say text s) ≡ asks s
  pub say_says : (text : Text) (s : S) → says (hands.say text s) ≡ suc (says s)

module _ {S : Type 0} (hands : Hands S) (asks says : S → ℕ) (laws : Counts hands asks says) where
  run_calls-counts :
      (e : Enforce) (calls : List ToolCall) (results : List ToolResult) (s : S)
      → (asks (run_calls hands e calls results s).1 ≡ asks s)
        × (says (run_calls hands e calls results s).1 ≡ says s)
  unfolding run_calls
  run_calls-counts e [] results s = (refl, refl)
  run_calls-counts e (call ∷ calls) results s =
      elim (Bool-cases (write_due e results && not (writes_file call.tool))) [
        | inl k ↦ rw (k, run_calls) (run_calls-counts e calls (results ++ refused call ∷ []) s)
        | inr k ↦
            let (res, after) = hands.execute call s in
            let (a, b) =
              run_calls-counts e calls (results ++ (hands.execute call s).0 ∷ [])
                (hands.execute call s).1 in
            rw (k, run_calls) (a ∙ laws.execute_asks call s, b ∙ laws.execute_says call s)
      ]

  -- The effect of a round: it stops with a message, or goes on with none.
  abbrev Counted : S → Next S → Type 0
  Counted s (stops outcome after) = (asks after ≡ asks s) × (says after ≡ suc (says s))
  Counted s (goes_on content now after) = (asks after ≡ asks s) × (says after ≡ says s)

  on_final-counts :
      (e : Enforce) (base final : Text) (results : List ToolResult) (s : S)
      → Counted s (on_final hands e base final results s)
  on_final-counts e base final results s = elim (Option-cases (held_back e results)) [
    | inl none_held ↦ rw (none_held, Counted) (laws.say_asks final s, laws.say_says final s)
    | inr (reminder, some_held) ↦ rw (some_held, Counted) (refl, refl)
  ]

  on_reply-counts :
      (e : Enforce) (base content : Text) (results : List ToolResult) (resp : Text) (reply : Reply)
      (s : S)
      → Counted s (on_reply hands e base content results resp reply s)
  on_reply-counts e base content results resp reply s =
      if_both (Counted s) (not (is_empty reply.final)) _ _
        (λ _. on_final-counts e base reply.final results s)
        (λ _.
          if_both (Counted s) (not reply.readable || not (ltb 0 (length reply.calls))) _ _
            (λ _.
              if_both (Counted s) e.tools _ _ (λ _. (refl, refl))
                (λ _. (laws.say_asks resp s, laws.say_says resp s)))
            (λ _. run_calls-counts e reply.calls results s))

  -- The effect of a round on the counters: one prompt, and a message where it stops.
  abbrev Told : S → Next S → Type 0
  Told s (stops outcome after) = (asks after ≡ suc (asks s)) × (says after ≡ suc (says s))
  Told s (goes_on content now after) = (asks after ≡ suc (asks s)) × (says after ≡ says s)

  Told-Counted :
      (s t : S) (n : Next S) → asks t ≡ suc (asks s) → says t ≡ says s → Counted t n → Told s n
  Told-Counted s t (stops outcome after) a b c = (c.0 ∙ a, c.1 ∙ ap suc b)
  Told-Counted s t (goes_on content now after) a b c = (c.0 ∙ a, c.1 ∙ b)

  on_answer-counts :
      (e : Enforce) (base content : Text) (results : List ToolResult) (a : Result Text Text × S)
      → Counted a.1 (on_answer hands e base content results a)
  on_answer-counts e base content results (err x, s) = (laws.say_asks _ s, laws.say_says _ s)
  on_answer-counts e base content results (ok resp, s) =
      on_reply-counts e base content results resp (hands.read_reply resp) s

  one_round-Told :
      (e : Enforce) (base content : Text) (results : List ToolResult) (s : S)
      → Told s (one_round hands e base content results s)
  unfolding one_round
  one_round-Told e base content results s =
      let prompt = build_tool_prompt content results in
      Told-Counted s (hands.ask prompt s).1 _ (laws.ask_asks prompt s) (laws.ask_says prompt s)
        (on_answer-counts e base content results (hands.ask prompt s))

  abbrev Within : ℕ → S → Outcome × List ToolResult × S → Type 0
  Within k s (outcome, results, after) = (asks after ≤ asks s + k) × (says after ≡ suc (says s))

  -- However the agent answers, the loop makes at most as many prompts as it has rounds and ends with just one
  -- message to the user.
  rounds-Within :
      (left : ℕ) (e : Enforce) (base content : Text) (results : List ToolResult) (s : S)
      → Within left s (rounds hands left e base content results s)
  unfolding rounds
  rounds-Within zero e base content results s =
      (omega (arith, laws.say_asks (codes "Agent exceeded tool call limit.") s), laws.say_says _ s)
  rounds-Within (suc left) e base content results s =
      elim (one_round hands e base content results s)
          as (λ n.
            Told s n
            → Within (suc left) s (elim n [
              | stops outcome after ↦ (outcome, results, after)
              | goes_on next now after ↦ rounds hands left e base next now after
            ])) [
              | stops outcome after ↦ λ told. (omega (arith, told.0), told.1)
              | goes_on next now after ↦ λ told.
                  let (a, b) = rounds-Within left e base next now after in
                  (omega (arith, told.0, a), b ∙ ap suc told.1)
            ]
        (one_round-Told e base content results s)

  -- A request makes at most eight prompts and ends with just one message to the user.
  pub run_rounds-Within :
      (e : Enforce) (base : Text) (s : S)
      → (asks (run_rounds hands e base s).2 ≤ asks s + tool_max_rounds)
        × (says (run_rounds hands e base s).2 ≡ suc (says s))
  unfolding run_rounds
  run_rounds-Within e base s = rounds-Within 8 e base base [] s
