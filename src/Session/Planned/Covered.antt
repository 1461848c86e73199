-- ===== src/Session/Planned/Covered.antt =====
-- A plan that is worked off to its end has run every step, in order.
use mathlib.Core.Path.{subst}
use krellin.Prelude.{
  ℕ, suc, ◌+◌, ◌≡◌, refl, sym, ap, ◌∙◌, ◌⊎◌, inl, inr, Option, none, some, List, [], ◌∷◌, ◌++◌,
  append-nil, append_assoc, arith, length, if_both,
}
use krellin.Prelude.Text.{Text, codes}
use krellin.Prelude.Result.{Result, ok, err}
use krellin.Session.Prompts.{build_eval_prompt}
use krellin.Session.{ToolCall, ToolResult}
use krellin.Session.Plan.{PlanState, set_plan, clear_plan}
use krellin.Session.Rounds.{Hands}
use krellin.Session.Planned.{
  Readings, Status, fine, retry, replan, Progress, done, replanned, Desk, Work, attempt_step,
  concluded, run_step, run_steps, judged, failed_result, status_after, evaluate_step,
}

-- A call of a tool with the result that it gave.
abbrev pub Run : Type 0
Run = ToolCall × ToolResult

-- Every step was run as it stands, once, or twice in a row, and nothing else was.
pub data Covers : List ToolCall → List Run → Type 0 where
  nothing : Covers [] []
  once :
      {step : ToolCall} {steps : List ToolCall} {res : ToolResult} {runs : List Run}
      → Covers steps runs
      → Covers (step ∷ steps) ((step, res) ∷ runs)
  twice :
      {step : ToolCall} {steps : List ToolCall} {res again : ToolResult} {runs : List Run}
      → Covers steps runs
      → Covers (step ∷ steps) ((step, res) ∷ (step, again) ∷ runs)

abbrev pub results_of : List Run → List ToolResult
results_of [] = []
results_of ((call, res) ∷ runs) = res ∷ results_of runs

results_of-append : (rs ss : List Run) → results_of (rs ++ ss) ≡ results_of rs ++ results_of ss
results_of-append [] ss = refl
results_of-append ((call, res) ∷ rs) ss = ap (λ xs. res ∷ xs) (results_of-append rs ss)

Status-cases : (x : Status) → (x ≡ fine) ⊎ ((x ≡ retry) ⊎ (x ≡ replan))
Status-cases fine = inl refl
Status-cases retry = inr (inl refl)
Status-cases replan = inr (inr refl)

Progress-cases : (x : Progress) → (x ≡ done) ⊎ (x ≡ replanned)
Progress-cases done = inl refl
Progress-cases replanned = inr refl

-- A log in the state: each execution of a tool adds its call and its result, and nothing else touches it.
pub record Logs {S : Type 0} (hands : Hands S) (log : S → List Run) : Type 0 where
  pub executes :
      (call : ToolCall) (s : S)
      → log (hands.execute call s).1 ≡ log s ++ (call, (hands.execute call s).0) ∷ []
  pub asks : (prompt : Text) (s : S) → log (hands.ask prompt s).1 ≡ log s
  pub says : (text : Text) (s : S) → log (hands.say text s) ≡ log s

-- The plan that is stored after steps: the last one that was set, or the one before.
abbrev plan_after : List ToolCall → ℕ → Work → Option PlanState → Option PlanState
plan_after [] index work plan = plan
plan_after (step ∷ rest) index work plan =
    some (record { request = work.request; steps = work.steps; index = suc index + length rest })

-- The runs since a log, with their results behind the ones before.
abbrev pub Adds :
    {S : Type 0}
    → (S → List Run)
    → List Run
    → List ToolResult
    → List Run
    → List ToolResult
    → S
    → Type 0
Adds log logged before runs results s =
    (log s ≡ logged ++ runs) × (results ≡ before ++ results_of runs)

-- How the steps that are left end: all of them have run and the plan is stored behind its last one, or the plan is
-- gone.
abbrev pub Ends :
    {S : Type 0}
    → (S → List Run)
    → List ToolCall
    → ℕ
    → Work
    → List ToolResult
    → Desk S
    → Progress × List ToolResult × Desk S
    → Type 0
Ends log rest index work before d₀ (replanned, results, d) = d.plan ≡ none
Ends log rest index work before d₀ (done, results, d) =
    (runs : List Run) × Adds log (log d₀.outside) before runs results d.outside
    × Covers rest runs
    × (d.plan ≡ plan_after rest index work d₀.plan)

abbrev set_at : ℕ → Work → PlanState
set_at index work = record { request = work.request; steps = work.steps; index = index }

plan_after-next :
    (step : ToolCall) (rest : List ToolCall) (index : ℕ) (work : Work) (plan : Option PlanState)
    → plan_after rest (suc index) work (some (set_at (suc index) work))
      ≡ plan_after (step ∷ rest) index work plan
plan_after-next step [] index work plan =
    let same : suc index ≡ suc index + length {A = ToolCall} [] = omega arith in
    ap (λ i. some (set_at i work)) same
plan_after-next step (next ∷ rest) index work plan =
    let same : suc (suc index) + length rest ≡ suc index + length (next ∷ rest) = omega arith in
    ap (λ i. some (set_at i work)) same

module _ {S : Type 0} (hands : Hands S) (readings : Readings) (log : S → List Run)
    (logs : Logs hands log) where
  Adds-append :
      (logged : List Run) (before : List ToolResult) (rs ss : List Run)
      (now results : List ToolResult) (s t : S)
      → Adds log logged before rs now s
      → Adds log (log s) now ss results t
      → Adds log logged before (rs ++ ss) results t
  Adds-append logged before rs ss now results s t (a, b) (c, d) = (
    c ∙ ap (λ l. l ++ ss) a ∙ append_assoc logged rs ss,
    d
        ∙ ap (λ l. l ++ results_of ss) b
        ∙ append_assoc before (results_of rs) (results_of ss)
        ∙ ap (λ l. before ++ l) (sym (results_of-append rs ss)),
  )

  Ends-next :
      (step : ToolCall) (rest : List ToolCall) (index : ℕ) (work : Work)
      (before now : List ToolResult) (d : Desk S) (s : S) (first : List Run)
      (end : Progress × List ToolResult × Desk S)
      → Adds log (log d.outside) before first now s
      → ((runs : List Run) → Covers rest runs → Covers (step ∷ rest) (first ++ runs))
      → Ends log rest
          (suc index)
          work
          now
          (record { plan = some (set_at (suc index) work); outside = s })
          end
      → Ends log (step ∷ rest) index work before d end
  Ends-next step rest index work before now d s first (replanned, results, after) adds covers h = h
  Ends-next step rest index work before now d s first (done, results, after) adds covers
        (runs, more, covered, at) =
      (
        first ++ runs,
        Adds-append (log d.outside) before first runs now results s after.outside adds more,
        covers runs covered,
        at ∙ plan_after-next step rest index work d.plan,
      )

  log-judged : (r : Result Text Text × S) → log (judged hands readings r).1 ≡ log r.1
  log-judged (err e, s) = refl
  log-judged (ok resp, s) = refl

  log-status_after :
      (content : Text) (step : ToolCall) (res : ToolResult) (s : S)
      → log (status_after hands readings content step res s).1 ≡ log s
  unfolding status_after evaluate_step
  log-status_after content step res s =
      if_both (λ (r : Status × S). log r.1 ≡ log s) (failed_result hands readings res) _ _
        (λ e. log-judged (hands.ask (build_eval_prompt content step res) s) ∙ logs.asks _ s)
        (λ e. refl)

  attempt-Adds :
      (index : ℕ) (work : Work) (step : ToolCall) (results : List ToolResult) (s : S)
      → let out = attempt_step hands readings index work step s in
        Adds log (log s) results ((step, out.0) ∷ []) (results ++ out.0 ∷ []) out.2
  unfolding attempt_step
  attempt-Adds index work step results s = (
    log-status_after work.request step (hands.execute step s).0 _
        ∙ logs.says _ _
        ∙ logs.executes step s,
    refl,
  )

  concluded-Adds :
      (index : ℕ) (work : Work) (step : ToolCall) (results : List ToolResult) (res : ToolResult)
      (status : Status) (s : S) (logged : List Run) (before : List ToolResult) (runs : List Run)
      → Adds log logged before runs (results ++ res ∷ []) s
      → let out = concluded hands readings index work step results res status s in
        Adds log logged before runs out.1 out.2
  concluded-Adds index work step results res fine s logged before runs (a, b) =
      (logs.says _ s ∙ a, b)
  concluded-Adds index work step results res retry s logged before runs (a, b) =
      (logs.says _ s ∙ a, b)
  concluded-Adds index work step results res replan s logged before runs (a, b) =
      (logs.says _ s ∙ a, b)

  last_run :
      (index : ℕ) (work : Work) (step : ToolCall) (results : List ToolResult) (s : S)
      → (res : ToolResult) × (let out = run_step hands readings 0 index work step results s in
          Adds log (log s) results ((step, res) ∷ []) out.1 out.2)
  unfolding run_step
  last_run index work step results s =
      let (res, status, s₁) = attempt_step hands readings index work step s in
      (
        res,
        concluded-Adds index work step results res status s₁ (log s) results _
            (attempt-Adds index work step results s),
      )

  -- A step with one retry runs once or twice.
  abbrev OnceOrTwice : ToolCall → List ToolResult → S → Progress × List ToolResult × S → Type 0
  OnceOrTwice step results s out =
      ((res : ToolResult) × Adds log (log s) results ((step, res) ∷ []) out.1 out.2)
      ⊎ ((res : ToolResult) × (again : ToolResult) × Adds log (log s) results
            ((step, res) ∷ (step, again) ∷ []) out.1 out.2)

  first_run :
      (index : ℕ) (work : Work) (step : ToolCall) (results : List ToolResult) (s : S)
      → OnceOrTwice step results s (run_step hands readings 1 index work step results s)
  unfolding run_step
  first_run index work step results s =
      let (res, status, s₁) = attempt_step hands readings index work step s in
      let ran = attempt-Adds index work step results s in
      elim (Status-cases status) [
        | inl e ↦
            rw (e, run_step)
              (inl (res, concluded-Adds index work step results res fine s₁ (log s) results _ ran))
        | inr (inl e) ↦
            let told =
              hands.say (readings.step_message index (length work.steps) step res (codes "retry"))
                s₁ in
            let (again, more) = last_run index work step (results ++ res ∷ []) told in
            rw (e, run_step)
              (inr (
                res,
                again,
                Adds-append (log s) results ((step, res) ∷ []) ((step, again) ∷ [])
                    (results ++ res ∷ []) _ told _ (logs.says _ s₁ ∙ ran.0, ran.1) more,
              ))
        | inr (inr e) ↦
            rw (e, run_step)
              (inl
                (res, concluded-Adds index work step results res replan s₁ (log s) results _ ran))
      ]

  module _ (step : ToolCall) (rest : List ToolCall) (index : ℕ) (work : Work)
      (results : List ToolResult) (d : Desk S) where
    abbrev ran : Progress × List ToolResult × S
    ran = run_step hands readings 1 index work step results d.outside

    abbrev onward : Progress × List ToolResult × Desk S
    onward =
        run_steps hands readings rest (suc index) work ran.1
          (record { plan = some (set_at (suc index) work); outside = ran.2 })

    run_steps-done :
        ran.0 ≡ done → run_steps hands readings (step ∷ rest) index work results d ≡ onward
    unfolding run_steps set_plan
    run_steps-done e = rw (e, run_steps) refl

    run_steps-replanned :
        ran.0 ≡ replanned
        → run_steps hands readings (step ∷ rest) index work results d
          ≡ (replanned, ran.1, record { plan = none; outside = ran.2 })
    unfolding run_steps clear_plan
    run_steps-replanned e = rw (e, run_steps) refl

  -- With a log of what the tools of the session execute: the loop over the steps that are left of a plan ends with
  -- each of them executed as it stands, in order, once or twice in a row, and nothing else executed, with the results of
  -- these executions behind those before, and, where there are any steps, with the plan stored with its index behind the
  -- last one; or it ends for a new plan, with none stored.
  pub run_steps-Ends :
      (rest : List ToolCall) (index : ℕ) (work : Work) (results : List ToolResult) (d : Desk S)
      → Ends log rest index work results d (run_steps hands readings rest index work results d)
  unfolding run_steps set_plan clear_plan
  run_steps-Ends [] index work results d =
      ([], (sym (append-nil (log d.outside)), sym (append-nil results)), nothing, refl)
  run_steps-Ends (step ∷ rest) index work results d =
      elim (Progress-cases (ran step rest index work results d).0) [
        | inl e ↦
            subst (Ends log (step ∷ rest) index work results d)
              (sym (run_steps-done step rest index work results d e))
              (by_runs (first_run index work step results d.outside)
                (λ now d'. run_steps-Ends rest (suc index) work now d'))
        | inr e ↦
            subst (Ends log (step ∷ rest) index work results d)
              (sym (run_steps-replanned step rest index work results d e)) refl
      ]
    where
      by_runs :
          OnceOrTwice step results d.outside (ran step rest index work results d)
          → ((now : List ToolResult) (d' : Desk S)
              → Ends log rest
                  (suc index)
                  work
                  now
                  d'
                  (run_steps hands readings rest (suc index) work now d'))
          → Ends log (step ∷ rest) index work results d (onward step rest index work results d)
      by_runs (inl (res, adds)) later =
          Ends-next step rest index work results _ d _ ((step, res) ∷ []) _ adds (λ runs c. once c)
            (later _ _)
      by_runs (inr (res, again, adds)) later =
          Ends-next step rest index work results _ d _ ((step, res) ∷ (step, again) ∷ []) _ adds
            (λ runs c. twice c) (later _ _)
