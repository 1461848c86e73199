-- ===== src/Executor/Order.antt =====
-- The order of the executor's events.
use krellin.Prelude.{
  ◌≡◌, refl, ap, ◌∙◌, Bool, false, ◌||◌, Option, none, some, List, [], ◌∷◌, ◌++◌, if◌then◌else◌,
  All,
}
use krellin.Prelude.Text.{Text, codes, text_eq}
use krellin.Protocol.{Action, Event}
use krellin.Queue.{Dequeued, item_of, queue_closed, cancelled, waits}
use krellin.Executor.{
  Payload, busy, started, idle, kind_of, Running, emit, outcome_of, run_action, run_actions,
}

-- Where the executor is, by its events.
pub data Phase : Type 0 where
  resting called working closing : Phase

abbrev is_executor_kind : Text → Bool
is_executor_kind kind =
    text_eq kind (codes "executor.busy")
    || text_eq kind (codes "action.started")
    || text_eq kind (codes "action.finished")
    || text_eq kind (codes "executor.idle")

abbrev expect : Text → Text → Phase → Option Phase
expect kind want next = if text_eq kind want then some next else none

-- The phase after an event of a kind: `busy`, `started`, `finished` and `idle` come in turn, and others only
-- while an action is worked on.
unfoldable pub next_phase : Phase → Text → Option Phase
next_phase resting kind = expect kind (codes "executor.busy") called
next_phase called kind = expect kind (codes "action.started") working
next_phase working kind =
    if is_executor_kind kind then expect kind (codes "action.finished") closing else some working
next_phase closing kind = expect kind (codes "executor.idle") resting

abbrev onward : Option Phase → Text → Option Phase
onward none kind = none
onward (some phase) kind = next_phase phase kind

unfoldable pub phases : Option Phase → List Event → Option Phase
phases phase [] = phase
phases phase (event ∷ events) = phases (onward phase event.kind) events

phases-append :
    (phase : Option Phase) (xs ys : List Event)
    → phases phase (xs ++ ys) ≡ phases (phases phase xs) ys
unfolding phases
phases-append phase [] ys = refl
phases-append phase (x ∷ xs) ys = phases-append (onward phase x.kind) xs ys

abbrev pub Quiet : Event → Type 0
Quiet event = is_executor_kind event.kind ≡ false

phases-Quiet :
    (events : List Event) → All Quiet events → phases (some working) events ≡ some working
unfolding phases next_phase
phases-Quiet [] h = refl
phases-Quiet (event ∷ events) (q, h) = rw (q, phases) (phases-Quiet events h)

finished_kind :
    (action : Action) (o : Option Text) → kind_of (outcome_of action o) ≡ codes "action.finished"
finished_kind action none = refl
finished_kind action (some error) = refl

module _ {S : Type 0} (encode : Payload → Text) (handle : Action → S → Option Text × List Event × S)
    (quiet : (action : Action) (s : S) → All Quiet (handle action s).1) where
  emit-phases :
      (action : Action) (payload : Payload) (r : Running S) (phase : Option Phase)
      → phases (some resting) r.emitted ≡ phase
      → phases (some resting) (emit encode handle action payload r).emitted
        ≡ onward phase (kind_of payload)
  unfolding emit phases
  emit-phases action payload r phase h =
      phases-append (some resting) r.emitted _ ∙ ap (λ p. onward p (kind_of payload)) h

  run_action-phases :
      (action : Action) (r : Running S)
      → phases (some resting) r.emitted ≡ some resting
      → phases (some resting) (run_action encode handle action r).emitted ≡ some resting
  unfolding run_action next_phase text_eq
  run_action-phases action r h =
      let first = emit encode handle action (busy action.action_id) r in
      let ready = emit encode handle action (started action.action_id action.kind) first in
      let at_work : phases (some resting) ready.emitted ≡ some working =
        emit-phases action (started action.action_id action.kind) first (some called)
          (emit-phases action (busy action.action_id) r (some resting) h) in
      let out = handle action ready.state in
      let after = record ready { state = out.2; emitted = ready.emitted ++ out.1 } in
      let still : phases (some resting) after.emitted ≡ some working =
        phases-append (some resting) ready.emitted out.1
        ∙ ap (λ p. phases p out.1) at_work
        ∙ phases-Quiet out.1 (quiet action ready.state) in
      emit-phases action idle (emit encode handle action (outcome_of action out.0) after)
        (some closing)
        (emit-phases action (outcome_of action out.0) after (some working) still
          ∙ ap (λ k. next_phase working k) (finished_kind action out.0))

  -- By their kinds, the events of a run are well bracketed, where the handler sends none of the executor's kinds.
  run_actions-phases :
      (given : List (Dequeued Action)) (r : Running S)
      → phases (some resting) r.emitted ≡ some resting
      → phases (some resting) (run_actions encode handle given r).emitted ≡ some resting
  unfolding run_actions
  run_actions-phases [] r h = h
  run_actions-phases (item_of action ∷ more) r h =
      run_actions-phases more (run_action encode handle action r) (run_action-phases action r h)
  run_actions-phases (queue_closed ∷ more) r h = h
  run_actions-phases (cancelled ∷ more) r h = h
  run_actions-phases (waits ∷ more) r h = run_actions-phases more r h
