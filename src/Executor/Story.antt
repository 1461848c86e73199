-- ===== src/Executor/Story.antt =====
-- All events of the executor's loop, and where they come from.
use krellin.Prelude.{
  suc, ◌≡◌, false, refl, sym, ap, ◌∙◌, Option, none, some, List, [], ◌∷◌, ◌++◌, append-nil,
  append_assoc,
}
use krellin.Prelude.Text.{Text, codes}
use krellin.Protocol.{Action, Event}
use krellin.Tools.Output.{itoa}
use krellin.Queue.{Dequeued, item_of, queue_closed, cancelled, waits}
use krellin.Executor.{
  Payload, busy, started, finished, idle, kind_of, Running, emit, outcome_of, run_action,
  run_actions,
}

-- What is told of the outcome that the handler gives.
abbrev pub outcome : Action → Option Text → Payload
outcome action none = finished action.action_id (codes "success") []
outcome action (some error) = finished action.action_id (codes "failure") error

module _ {S : Type 0} (encode : Payload → Text)
    (handle : Action → S → Option Text × List Event × S) where
  -- An event of the executor for an action.
  abbrev pub Says : Action → Payload → Event → Type 0
  Says action payload event =
      (event.kind ≡ kind_of payload)
      × (event.payload ≡ encode payload)
      × (event.session_id ≡ action.session_id)
      × (event.agent_id ≡ action.agent_id)
      × (event.source ≡ codes "executor")

  -- The events of a run and the state after it: of each action `busy` and `started`, then all that the handler sends
  -- for it in the state that the actions before have left, then the outcome that it gives, and `idle`.
  abbrev pub Story : List (Dequeued Action) → S → List Event → S → Type 0
  Story [] s events after = (events ≡ []) × (after ≡ s)
  Story (queue_closed ∷ more) s events after = (events ≡ []) × (after ≡ s)
  Story (cancelled ∷ more) s events after = (events ≡ []) × (after ≡ s)
  Story (waits ∷ more) s events after = Story more s events after
  Story (item_of action ∷ more) s events after =
      (first : Event) × (second : Event) × (third : Event) × (last : Event) × (rest : List Event)
      × (events ≡ first ∷ second ∷ ((handle action s).1 ++ third ∷ last ∷ rest))
      × Says action (busy action.action_id) first
      × Says action (started action.action_id action.kind) second
      × Says action (outcome action (handle action s).0) third
      × Says action idle last
      × Story more (handle action s).2 rest after

  five_and :
      (es : List Event) (a b : Event) (hs : List Event) (c d : Event) (rest : List Event)
      → (((((es ++ a ∷ []) ++ b ∷ []) ++ hs) ++ c ∷ []) ++ d ∷ []) ++ rest
        ≡ es ++ a ∷ b ∷ (hs ++ c ∷ d ∷ rest)
  five_and [] a b hs c d rest =
      ap (λ xs. a ∷ b ∷ xs)
        (append_assoc (hs ++ c ∷ []) (d ∷ []) rest ∙ append_assoc hs (c ∷ []) (d ∷ rest))
  five_and (e ∷ es) a b hs c d rest = ap (λ xs. e ∷ xs) (five_and es a b hs c d rest)

  abbrev event_of : Action → Payload → Text → Event
  event_of action payload id = record {
    event_id = id;
    session_id = action.session_id;
    zero_time = false;
    kind = kind_of payload;
    source = codes "executor";
    agent_id = action.agent_id;
    payload = encode payload;
  }

  said :
      (action : Action) (o : Option Text) (id : Text)
      → Says action (outcome action o) (event_of action (outcome_of action o) id)
  said action none id = (refl, refl, refl, refl, refl)
  said action (some e) id = (refl, refl, refl, refl, refl)

  -- Whatever the actions and the handler are: a run up to the first error of `Dequeue` adds to the events those of its
  -- actions, in order and nothing else. Of each action these are `busy` and `started`, then the events that the handler
  -- sends for it in the state that it finds, then `finished` with the outcome that the handler gives, and `idle`.
  pub run_actions-Story :
      (given : List (Dequeued Action)) (r : Running S)
      → (events : List Event) × ((run_actions encode handle given r).emitted ≡ r.emitted ++ events)
        × Story given r.state events (run_actions encode handle given r).state
  unfolding run_actions run_action emit
  run_actions-Story [] r = ([], sym (append-nil r.emitted), (refl, refl))
  run_actions-Story (queue_closed ∷ more) r = ([], sym (append-nil r.emitted), (refl, refl))
  run_actions-Story (cancelled ∷ more) r = ([], sym (append-nil r.emitted), (refl, refl))
  run_actions-Story (waits ∷ more) r = run_actions-Story more r
  run_actions-Story (item_of action ∷ more) r =
      let after = run_action encode handle action r in
      let out = handle action r.state in
      let (rest, added, story) = run_actions-Story more after in
      (
        _,
        added ∙ five_and r.emitted _ _ out.1 _ _ rest,
        (
          _,
          _,
          _,
          _,
          rest,
          refl,
          (refl, refl, refl, refl, refl),
          (refl, refl, refl, refl, refl),
          said action out.0 (codes "e-" ++ itoa (suc (suc (suc r.counter)))),
          (refl, refl, refl, refl, refl),
          story,
        ),
      )
