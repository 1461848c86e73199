-- ===== src/Session/Streaming.antt =====
-- internal/session/session.go: `Submit`, and `streamPTY`, which tells the subscribers what the terminal prints. The
-- printing of a payload as JSON is a parameter.
use krellin.Prelude.{ℕ, Bool, true, false, Option, none, some, List, [], ◌∷◌, ◌≡◌, if◌then◌else◌}
use krellin.Prelude.Text.{Text, codes, is_empty}
use krellin.Protocol.{Action, Event}
use krellin.Queue.{Queue, enqueue}
use krellin.Session.Events.{Channel, Hub, emit_all, channel_of}
use krellin.Session.Events.Delivery.{filled, emit_all-filled}

-- `Submit`: whether the queue takes the action, and the queue.
unfoldable submit : Text → Action → Queue Action → Bool × Queue Action
unfolding enqueue
submit id action q =
    enqueue (if is_empty action.session_id then record action { session_id = id } else action) q

-- What one call of `Read` gives, and whether the context is done after it.
pub record Reading : Type 0 where
  pub data_ : Text
  pub error : Option Text
  pub stopped : Bool

module _ (output_payload error_payload : Text → Text) (id : Text) where
  abbrev pub told : Text → Text → Text → Event
  told event_id kind payload = record {
    event_id = event_id;
    session_id = id;
    zero_time = false;
    kind = kind;
    source = codes "executor";
    agent_id = [];
    payload = payload;
  }

  abbrev with_output : Text → List Event → List Event
  with_output [] events = events
  with_output (c ∷ data_) events =
      told (codes "terminal-output") (codes "terminal.output") (output_payload (c ∷ data_)) ∷ events

  abbrev unless_stopped : Bool → List Event → List Event
  unless_stopped true events = []
  unless_stopped false events = events

  abbrev after_read : Option Text → Bool → List Event → List Event
  after_read (some e) stopped events =
      told (codes "terminal-read-error") (codes "error") (error_payload e) ∷ []
  after_read none stopped events = unless_stopped stopped events

  -- The events of the loop, for what `Read` has given so far.
  unfoldable pub streamed : List Reading → List Event
  streamed [] = []
  streamed (r ∷ readings) =
      let later = streamed readings in with_output r.data_ (after_read r.error r.stopped later)

  -- `streamPTY`
  unfoldable pub stream_pty : List Reading → Hub → Hub
  unfolding streamed emit_all
  stream_pty readings hub = emit_all (streamed readings) hub

  -- A subscriber that does not read yet has, of what the terminal prints, the first readings that fit, in order.
  stream_pty-filled :
      (readings : List Reading) (subscriber : ℕ) (hub : Hub) (ch : Channel)
      → channel_of subscriber hub.subscribers ≡ some ch
      → channel_of subscriber (stream_pty readings hub).subscribers
        ≡ some (filled ch (streamed readings))
  unfolding stream_pty
  stream_pty-filled readings subscriber hub ch h =
      emit_all-filled (streamed readings) subscriber hub ch h
