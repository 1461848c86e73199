-- ===== src/Tests/Queue.antt =====
-- The queue and the executor on short runs.
use krellin.Prelude.{ℕ, ◌≡◌, refl, true, false, Option, none, some, List, arith, [], ◌∷◌, ◌++◌, All}
use krellin.Prelude.Text.{Text, codes, text_eq, is_empty}
use krellin.Protocol.{
  Action, Event, validate_action, validate_event, one_of, valid_event_types, valid_event_sources,
}
use krellin.Queue.{Queue, new_queue, dequeue_round, item_of, queue_closed}
use krellin.Queue.Fifo.{Operation, enqueues, dequeues, closes, run, run-fifo}
use krellin.Queue.Wakeups.{
  Monitor, new_monitor, Steps, stays, goes, calling, passing, Awaited, Steps-Awaited,
}
use krellin.Executor.{Payload, kind_of, Running, run_actions}
use krellin.Executor.Story.{Story, run_actions-Story}
use krellin.Executor.Valid.{IsTaken, IsValid, run_actions-IsValid}

abbrev operations : List (Operation ℕ)
operations = enqueues 1 ∷ enqueues 2 ∷ dequeues false ∷ closes ∷ dequeues false ∷ []

run-fifo_example :
    [] ++ (run operations new_queue).taken
    ≡ (run operations new_queue).given ++ (run operations new_queue).left.items
run-fifo_example = run-fifo operations new_queue

abbrev shut : Queue ℕ
shut = record { closed = true; items = 7 ∷ [] }

abbrev waiting : Monitor ℕ
waiting = record { queue = new_queue; awake = 0; asleep = 1 }

sleeps : Steps new_monitor waiting
unfolding dequeue_round
sleeps = goes (goes (stays new_monitor) (calling new_monitor)) (passing new_queue 0 0 false)

Steps-Awaited_example : Awaited waiting
Steps-Awaited_example = Steps-Awaited sleeps

abbrev action : Action
action = record {
  action_id = codes "a1";
  session_id = codes "s";
  agent_id = codes "me";
  kind = codes "revert";
  zero_time = false;
  payload = [];
}

abbrev said : Event
said = record {
  event_id = codes "agent-message";
  session_id = codes "s";
  zero_time = false;
  kind = codes "agent.message";
  source = codes "agent";
  agent_id = codes "me";
  payload = [];
}

abbrev handle : Action → ℕ → Option Text × List Event × ℕ
handle a n = (some (codes "patches not configured"), said ∷ [], n)

abbrev idle_at : Running ℕ
idle_at = record { counter = 0; state = 0; emitted = [] }

abbrev encode : Payload → Text
encode p = kind_of p

run_actions-Story_example :
    (events : List Event) × ((run_actions encode handle
        (item_of action ∷ queue_closed ∷ [])
        idle_at).emitted
      ≡ [] ++ events)
    × Story encode handle
        (item_of action ∷ queue_closed ∷ [])
        0
        events
        (run_actions encode handle (item_of action ∷ queue_closed ∷ []) idle_at).state
run_actions-Story_example =
    run_actions-Story encode handle (item_of action ∷ queue_closed ∷ []) idle_at

-- A handler that answers in the session of its action and in the name of its agent.
abbrev answer_to : Action → Event
answer_to a = record said { session_id = a.session_id; agent_id = a.agent_id }

abbrev saying : Action → ℕ → Option Text × List Event × ℕ
saying a n = (none, answer_to a ∷ [], n)

known_kind : one_of (codes "agent.message") valid_event_types ≡ true
unfolding one_of text_eq
known_kind = refl

known_source : one_of (codes "agent") valid_event_sources ≡ true
unfolding one_of text_eq
known_source = refl

saying-IsValid : (a : Action) (s : ℕ) → IsTaken a → All IsValid (saying a s).1
unfolding validate_event validate_action is_empty
saying-IsValid a s taken = (ground (arith, known_kind, known_source), tt)

run_actions-IsValid_example :
    All IsValid (run_actions encode saying (item_of action ∷ queue_closed ∷ []) idle_at).emitted
run_actions-IsValid_example =
    run_actions-IsValid encode saying saying-IsValid (item_of action ∷ queue_closed ∷ []) idle_at
      (unfold validate_action is_empty one_of text_eq in (refl, tt)) tt
