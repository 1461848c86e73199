-- ===== src/Session/Planned/Whole.antt =====
-- `runPlanned` of agent_tools.go as a whole: from the request for a plan to the answer, with the attempts that are left.
pub mod Ended
use krellin.Prelude.{
  ℕ, zero, suc, Bool, not, ◌&&◌, ◌||◌, Option, none, some, List, [], ◌++◌, ltb, if◌then◌else◌,
  length, drop, ◌==◌,
}
use krellin.Prelude.Text.{Text, codes, is_empty, trim_space}
use krellin.Prelude.Result.{Result, ok, err}
use krellin.Session.{ToolResult}
use krellin.Session.Plan.{PlanState, get_plan, set_plan, clear_plan}
use krellin.Session.Prompts.{build_plan_prompt, build_final_prompt}
use krellin.Session.Rounds.{Hands, Enforce, text_of, has_write_result, run_rounds}
use krellin.Session.Planned.{
  PlanReply, Readings, Progress, done, replanned, Desk, Planned, planned, unplanned, run_steps,
}

abbrev no_write_message : Text
no_write_message =
    codes "Planned execution completed without a file write, but the user requested file changes."

abbrev or_default : Text → Text
or_default final = if is_empty final then codes "Completed requested steps." else final

module _ {S : Type 0} (hands : Hands S) (readings : Readings) where
  abbrev say_to : Text → Desk S → Desk S
  say_to message d = record d { outside = hands.say message d.outside }

  abbrev answer_of : Text → Text
  answer_of resp =
      let reply = hands.read_reply resp in
      or_default
        (if is_empty reply.final || not reply.readable then trim_space resp else reply.final)

  abbrev answered_with : Option PlanState → Result Text Text × S → Planned × Desk S
  answered_with plan (err e, s) =
      (planned [], say_to (codes "Agent error: " ++ e) (record { plan = plan; outside = s }))
  answered_with plan (ok resp, s) =
      (planned (answer_of resp), say_to (answer_of resp) (record { plan = plan; outside = s }))

  -- The end of a plan whose steps are all done.
  unfoldable pub finish_plan : Bool → Text → List ToolResult → Desk S → Planned × Desk S
  finish_plan enforce_write content results d =
      if enforce_write && not (has_write_result results)
      then (
        planned no_write_message,
        say_to no_write_message (record d { plan = clear_plan d.plan }),
      )
      else answered_with (clear_plan d.plan)
          (hands.ask (build_final_prompt content results) d.outside)

  abbrev after_steps : Bool → Text → Progress × List ToolResult × Desk S → Option Planned × Desk S
  after_steps enforce_write content (replanned, results, d) = (none, d)
  after_steps enforce_write content (done, results, d) =
      let (p, d₁) = finish_plan enforce_write content results d in (some p, d₁)

  -- A plan is announced at its beginning.
  abbrev announced : PlanState → Desk S → Desk S
  announced p d = if p.index == 0 then say_to (readings.plan_message p.steps) d else d

  unfoldable pub work_off : Bool → Text → PlanState → Desk S → Option Planned × Desk S
  work_off enforce_write content p d = after_steps enforce_write content (
      run_steps hands readings (drop p.index p.steps) p.index
        (record { request = p.request; steps = p.steps }) [] (announced p d))

  abbrev new_plan : Text → PlanReply → PlanState
  new_plan content reply = record { request = content; steps = reply.steps; index = 0 }

  abbrev taken_up : Bool → Text → PlanReply → Desk S → Option Planned × Desk S
  taken_up enforce_write content reply d =
      if not reply.readable
      then (some unplanned, d)
      else if not (is_empty reply.question)
      then (some (planned reply.question), say_to reply.question d)
      else if ltb (length reply.steps) 2
      then (some unplanned, d)
      else work_off enforce_write content (new_plan content reply)
          (record d { plan = set_plan (new_plan content reply) d.plan })

  abbrev asked_for : Bool → Text → Option PlanState → Result Text Text × S → Option Planned × Desk S
  asked_for enforce_write content plan (err e, s) =
      (some unplanned, say_to (codes "Agent error: " ++ e) (record { plan = plan; outside = s }))
  asked_for enforce_write content plan (ok resp, s) =
      taken_up enforce_write content (readings.read_plan resp) (record { plan = plan; outside = s })

  abbrev from_plan : Bool → Text → Option PlanState → Desk S → Option Planned × Desk S
  from_plan enforce_write content (some p) d = work_off enforce_write content p d
  from_plan enforce_write content none d =
      asked_for enforce_write content d.plan (hands.ask (build_plan_prompt content) d.outside)

  -- One round of the loop over attempts; with no outcome the next one is begun.
  unfoldable pub one_attempt : Bool → Text → Desk S → Option Planned × Desk S
  unfolding work_off
  one_attempt enforce_write content d = from_plan enforce_write content (get_plan content d.plan) d

  unfoldable pub attempts : ℕ → Bool → Text → Desk S → Planned × Desk S
  attempts zero enforce_write content d = (unplanned, d)
  attempts (suc left) enforce_write content d =
      let (outcome, d₁) = one_attempt enforce_write content d in
      elim outcome [ some p ↦ (p, d₁) | none ↦ attempts left enforce_write content d₁ ]

  -- `runPlanned`
  unfoldable pub run_planned : Bool → Text → Desk S → Planned × Desk S
  run_planned enforce_write content d = attempts 2 enforce_write content d

  abbrev pub or_rounds : Enforce → Text → Planned × Desk S → Text × Desk S
  or_rounds e content (planned final, d) = (final, d)
  or_rounds e content (unplanned, d) =
      let (outcome, results, s) = run_rounds hands e content d.outside in
      (text_of outcome, record d { outside = s })

  -- `runAgentWithTools` as a whole: a request for several steps is planned first.
  unfoldable pub run_agent_with_tools : Enforce → Text → Desk S → Text × Desk S
  run_agent_with_tools e content d =
      or_rounds e content (if e.multi then run_planned e.write content d else (unplanned, d))
