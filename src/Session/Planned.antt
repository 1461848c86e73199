-- ===== src/Session/Planned.antt =====
-- `runPlanned` and `evaluateStep` of agent_tools.go: a plan that the agent makes is worked off step by step.
pub mod Covered
pub mod Whole
use krellin.Prelude.Int.{is_zero}
use krellin.Prelude.{
  ℕ, zero, suc, ◌+◌, Bool, true, false, not, ◌&&◌, ◌||◌, Option, none, some, List, [], ◌∷◌, ◌++◌,
  ltb, leb, if◌then◌else◌, length, drop, ◌==◌,
}
use krellin.Prelude.Text.{Text, codes, text_eq, is_empty, trim_space}
use krellin.Prelude.Result.{Result, ok, err}
use krellin.Session.{ToolCall, ToolResult}
use krellin.Session.Plan.{PlanState, get_plan, set_plan, clear_plan}
use krellin.Session.Prompts.{build_plan_prompt, build_final_prompt, build_eval_prompt}
use krellin.Session.Rounds.{Hands, Enforce, text_of, has_write_result, run_rounds}

-- What the answer to the request for a plan holds.
pub record PlanReply : Type 0 where
  pub steps : List ToolCall
  pub question : Text
  pub readable : Bool

-- `parsePlanResponse`, the status that `evaluateStep` decodes (trimmed and in lower case), and the messages of
-- `formatPlanSteps` and `formatStepResult`.
pub record Readings : Type 0 where
  pub read_plan : Text → PlanReply
  pub read_status : Text → Option Text
  pub plan_message : List ToolCall → Text
  pub step_message : ℕ → ℕ → ToolCall → ToolResult → Text → Text

pub data Status : Type 0 where
  fine retry replan : Status

-- How the work on a plan or on one of its steps ended.
pub data Progress : Type 0 where
  done replanned : Progress

-- The session: its stored plan, and all else.
pub record Desk (S : Type 0) : Type 0 where
  pub plan : Option PlanState
  pub outside : S

pub data Planned : Type 0 where
  unplanned : Planned
  planned : Text → Planned

-- The status that counts; any other text is `ok`.
unfoldable pub status_of : Option Text → Status
status_of none = fine
status_of (some status) =
    if text_eq status (codes "retry")
    then retry
    else if text_eq status (codes "replan")
    then replan
    else fine

-- A plan that is worked off: its steps, their number, and the request.
pub record Work : Type 0 where
  pub request : Text
  pub steps : List ToolCall

module _ {S : Type 0} (hands : Hands S) (readings : Readings) where
  abbrev pub judged : Result Text Text × S → Status × S
  judged (err e, s) = (fine, s)
  judged (ok resp, s) = (status_of (readings.read_status resp), s)

  -- `evaluateStep`
  unfoldable pub evaluate_step : Text → ToolCall → ToolResult → S → Status × S
  evaluate_step content step res s = judged (hands.ask (build_eval_prompt content step res) s)

  abbrev pub failed_result : ToolResult → Bool
  failed_result res = not (is_empty res.error) || not (is_zero res.exit_code)

  -- The status after a step: the agent is asked only where the tool failed.
  unfoldable pub status_after : Text → ToolCall → ToolResult → S → Status × S
  status_after content step res s =
      if failed_result res then evaluate_step content step res s else (fine, s)

  abbrev tell : ℕ → Work → ToolCall → ToolResult → Text → S → S
  tell index work step res word =
      hands.say (readings.step_message index (length work.steps) step res word)

  -- A step is run and judged: the result and the status.
  unfoldable pub attempt_step : ℕ → Work → ToolCall → S → ToolResult × Status × S
  unfolding status_after
  attempt_step index work step s =
      let (res, s₁) = hands.execute step s in
      let (status, s₂) =
        status_after work.request step res (tell index work step res (codes "ran") s₁) in
      (res, status, s₂)

  abbrev concluded :
      ℕ
      → Work
      → ToolCall
      → List ToolResult
      → ToolResult
      → Status
      → S
      → Progress × List ToolResult × S
  concluded index work step results res replan s =
      (replanned, results ++ res ∷ [], tell index work step res (codes "replan") s)
  concluded index work step results res fine s =
      (done, results ++ res ∷ [], tell index work step res (codes "ok") s)
  concluded index work step results res retry s =
      (done, results ++ res ∷ [], tell index work step res (codes "ok") s)

  -- A step, with the retries that are left.
  unfoldable pub run_step :
      ℕ → ℕ → Work → ToolCall → List ToolResult → S → Progress × List ToolResult × S
  run_step zero index work step results s =
      let (res, status, s₁) = attempt_step index work step s in
      concluded index work step results res status s₁
  run_step (suc left) index work step results s =
      let (res, status, s₁) = attempt_step index work step s in
      elim status [
        | fine ↦ concluded index work step results res fine s₁
        | replan ↦ concluded index work step results res replan s₁
        | retry ↦
            run_step left index work step (results ++ res ∷ [])
              (tell index work step res (codes "retry") s₁)
      ]

  -- The steps that are left, from an index on.
  unfoldable pub run_steps :
      List ToolCall → ℕ → Work → List ToolResult → Desk S → Progress × List ToolResult × Desk S
  run_steps [] index work results d = (done, results, d)
  run_steps (step ∷ rest) index work results d =
      let (progress, results₁, s) = run_step 1 index work step results d.outside in
      elim progress [
        | done ↦ run_steps rest (suc index) work results₁ (record {
          plan =
              set_plan (record { request = work.request; steps = work.steps; index = suc index })
                d.plan;
          outside = s;
        })
        | replanned ↦ (replanned, results₁, record { plan = clear_plan d.plan; outside = s })
      ]
