-- ===== src/Session/Plan.antt =====
-- plan.go: the plan that a session works off.
use krellin.Prelude.{
  ℕ, zero, suc, ◌+◌, ◌≤◌, ◌<◌, ◌≡◌, refl, Option, none, some, List, arith, ltb, if◌then◌else◌,
  length, if_both, sym, ap, ◌∙◌,
}
use krellin.Prelude.Text.{Text, text_eq}
use krellin.Session.{ToolCall}

pub record PlanState : Type 0 where
  pub request : Text
  pub steps : List ToolCall
  pub index : ℕ

-- `getPlan`
unfoldable pub get_plan : Text → Option PlanState → Option PlanState
get_plan request none = none
get_plan request (some p) = if text_eq p.request request then some p else none

-- `setPlan`
unfoldable pub set_plan : PlanState → Option PlanState → Option PlanState
set_plan p _ = some p

abbrev advanced : PlanState → PlanState
advanced p = if ltb p.index (length p.steps) then record p { index = suc p.index } else p

-- `advancePlan`
unfoldable advance_plan : Option PlanState → Option PlanState
advance_plan none = none
advance_plan (some p) =
    let next = advanced p in if ltb next.index (length p.steps) then some next else none

-- `clearPlan`
unfoldable pub clear_plan : Option PlanState → Option PlanState
clear_plan _ = none

unfoldable advance_times : ℕ → Option PlanState → Option PlanState
advance_times zero plan = plan
advance_times (suc n) plan = advance_times n (advance_plan plan)

advance_times-none : (n : ℕ) → advance_times n none ≡ none
unfolding advance_times advance_plan
advance_times-none zero = refl
advance_times-none (suc n) = advance_times-none n

-- The plan at a step, if it has that step.
abbrev plan_at : PlanState → ℕ → Option PlanState
plan_at p i = if ltb i (length p.steps) then some (record p { index = i }) else none

advance_plan-eq :
    (p : PlanState) → p.index < length p.steps → advance_plan (some p) ≡ plan_at p (suc p.index)
unfolding advance_plan
advance_plan-eq p h =
    let moved : advanced p ≡ record p { index = suc p.index } =
      if_both (λ q. q ≡ record p { index = suc p.index }) (ltb p.index (length p.steps)) _ _
        (λ _. refl) (λ e. absurd (ground arith)) in
    ap (λ next. if ltb next.index (length p.steps) then some next else none) moved

plan_at-past : (p : PlanState) (i : ℕ) → length p.steps ≤ i → plan_at p i ≡ none
plan_at-past p i h =
    if_both (λ x. x ≡ none) (ltb i (length p.steps)) (some (record p { index = i })) none
      (λ e. absurd (ground arith)) (λ _. refl)

-- A plan that is at one of its steps is, after some calls of `advancePlan`, at the step that many further on, if it
-- has that step, and is gone otherwise.
advance_times-eq :
    (n : ℕ) (p : PlanState)
    → p.index < length p.steps
    → advance_times n (some p) ≡ plan_at p (p.index + n)
unfolding advance_times
advance_times-eq zero p h =
    if_both (λ x. some p ≡ x) (ltb (p.index + 0) (length p.steps))
      (some (record p { index = p.index + 0 })) none
      (λ _.
        let same : p.index ≡ p.index + 0 = omega arith in
        ap (λ i. some (record p { index = i })) same)
      (λ e. absurd (ground arith))
advance_times-eq (suc n) p h =
    ap (advance_times n) (advance_plan-eq p h)
    ∙ if_both (λ x. advance_times n x ≡ plan_at p (p.index + suc n))
        (ltb (suc p.index) (length p.steps)) (some (record p { index = suc p.index })) none
        (λ e.
          let same : suc p.index + n ≡ p.index + suc n = omega arith in
          advance_times-eq n (record p { index = suc p.index }) (ground arith)
          ∙ ap (plan_at p) same)
        (λ e. advance_times-none n ∙ sym (plan_at-past p (p.index + suc n) (ground arith)))
