-- ===== src/Executor.antt =====
-- internal/executor/executor.go: the loop that takes actions from the queue, and its events.
pub mod Story
pub mod Order
pub mod Valid
use krellin.Prelude.{
  ℕ, suc, Bool, true, false, Option, none, some, List, [], ◌∷◌, ◌++◌, if◌then◌else◌,
}
use krellin.Prelude.Text.{Text, codes}
use krellin.Tools.Output.{itoa}
use krellin.Protocol.{Action, Event}
use krellin.Queue.{Dequeued, item_of, queue_closed, cancelled, waits}

-- The payloads of the executor, before they are encoded.
pub data Payload : Type 0 where
  busy : Text → Payload
  started : Text → Text → Payload
  finished : Text → Text → Text → Payload
  idle : Payload

abbrev pub kind_of : Payload → Text
kind_of (busy id) = codes "executor.busy"
kind_of (started id kind) = codes "action.started"
kind_of (finished id status error) = codes "action.finished"
kind_of idle = codes "executor.idle"

-- What the loop works on: the counter of events, the state of the handler, and all events so far, those of the
-- handler (with their own numbers) included.
pub record Running (S : Type 0) : Type 0 where
  pub counter : ℕ
  pub state : S
  pub emitted : List Event

abbrev outcome_of : Action → Option Text → Payload
outcome_of action none = finished action.action_id (codes "success") []
outcome_of action (some error) = finished action.action_id (codes "failure") error

module _ {S : Type 0} (encode : Payload → Text)
    (handle : Action → S → Option Text × List Event × S) where
  -- `emit`, which never gives the zero time
  unfoldable pub emit : Action → Payload → Running S → Running S
  emit action payload r = record r {
    counter = suc r.counter;
    emitted =
        r.emitted
        ++ record {
          event_id = codes "e-" ++ itoa (suc r.counter);
          session_id = action.session_id;
          zero_time = false;
          kind = kind_of payload;
          source = codes "executor";
          agent_id = action.agent_id;
          payload = encode payload;
        }
          ∷ [];
  }

  abbrev handled : Action → Running S → Option Text × List Event × S → Running S
  handled action r (error, events, state) =
      emit action (outcome_of action error)
        (record r { state = state; emitted = r.emitted ++ events })

  -- One action of `Run`.
  unfoldable pub run_action : Action → Running S → Running S
  run_action action r =
      let ready =
        emit action (started action.action_id action.kind)
          (emit action (busy action.action_id) r) in
      emit action idle (handled action ready (handle action ready.state))

  -- `Run`, over what `Dequeue` returns, up to its first error.
  unfoldable pub run_actions : List (Dequeued Action) → Running S → Running S
  run_actions [] r = r
  run_actions (item_of action ∷ more) r = run_actions more (run_action action r)
  run_actions (queue_closed ∷ more) r = r
  run_actions (cancelled ∷ more) r = r
  run_actions (waits ∷ more) r = run_actions more r
