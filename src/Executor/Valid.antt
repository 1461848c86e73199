-- ===== src/Executor/Valid.antt =====
-- The events of internal/executor/executor.go and `ValidateEvent`.
use krellin.Prelude.{◌≡◌, refl, true, Option, none, List, [], ◌∷◌, ◌++◌, arith, All, All-append}
use krellin.Prelude.Text.{Text, codes, text_eq, is_empty}
use krellin.Protocol.{
  Action, Event, validate_action, validate_event, one_of, valid_event_types, valid_event_sources,
}
use krellin.Queue.{Dequeued, item_of, queue_closed, cancelled, waits}
use krellin.Executor.{
  Payload, busy, started, finished, idle, kind_of, Running, emit, outcome_of, run_action,
  run_actions,
}

abbrev pub IsValid : Event → Type 0
IsValid event = validate_event event ≡ none

kind_of-valid : (payload : Payload) → one_of (kind_of payload) valid_event_types ≡ true
unfolding one_of text_eq
kind_of-valid (busy id) = refl
kind_of-valid (started id kind) = refl
kind_of-valid (finished id status error) = refl
kind_of-valid idle = refl

source-valid : one_of (codes "executor") valid_event_sources ≡ true
unfolding one_of text_eq
source-valid = refl

-- The actions among the results of `Dequeue`.
abbrev AllGiven : (Action → Type 0) → List (Dequeued Action) → Type 0
AllGiven P [] = Unit
AllGiven P (item_of action ∷ more) = P action × AllGiven P more
AllGiven P (_ ∷ more) = AllGiven P more

abbrev pub IsTaken : Action → Type 0
IsTaken action = validate_action action ≡ none

module _ {S : Type 0} (encode : Payload → Text) (handle : Action → S → Option Text × List Event × S)
    (valid : (action : Action) (s : S) → IsTaken action → All IsValid (handle action s).1) where
  emit-IsValid :
      (action : Action) (payload : Payload) (r : Running S)
      → IsTaken action
      → All IsValid r.emitted
      → All IsValid (emit encode handle action payload r).emitted
  unfolding emit validate_event validate_action is_empty
  emit-IsValid action payload r taken h =
      All-append IsValid r.emitted _ h (ground (arith, kind_of-valid payload, source-valid), tt)

  run_action-IsValid :
      (action : Action) (r : Running S)
      → IsTaken action
      → All IsValid r.emitted
      → All IsValid (run_action encode handle action r).emitted
  unfolding run_action
  run_action-IsValid action r taken h =
      let first = emit encode handle action (busy action.action_id) r in
      let ready = emit encode handle action (started action.action_id action.kind) first in
      let out = handle action ready.state in
      let after = record ready { state = out.2; emitted = ready.emitted ++ out.1 } in
      let so_far : All IsValid ready.emitted =
        emit-IsValid action _ first taken (emit-IsValid action _ r taken h) in
      emit-IsValid action idle _ taken (
        emit-IsValid action (outcome_of action out.0) after taken
          (All-append IsValid ready.emitted out.1 so_far (valid action ready.state taken)))

  -- Where the actions that are taken off the queue are ones that `ValidateAction` takes, and the handler answers such an
  -- action with events that `ValidateEvent` takes, every event of a run is one that `ValidateEvent` takes.
  pub run_actions-IsValid :
      (given : List (Dequeued Action)) (r : Running S)
      → AllGiven IsTaken given
      → All IsValid r.emitted
      → All IsValid (run_actions encode handle given r).emitted
  unfolding run_actions
  run_actions-IsValid [] r taken h = h
  run_actions-IsValid (item_of action ∷ more) r taken h =
      run_actions-IsValid more (run_action encode handle action r) taken.1
        (run_action-IsValid action r taken.0 h)
  run_actions-IsValid (queue_closed ∷ more) r taken h = h
  run_actions-IsValid (cancelled ∷ more) r taken h = h
  run_actions-IsValid (waits ∷ more) r taken h = run_actions-IsValid more r taken h
