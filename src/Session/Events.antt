-- ===== src/Session/Events.antt =====
-- internal/session/session.go: the subscribers of a session and `Emit`. A channel is its capacity and what it holds.
pub mod Delivery
use krellin.Prelude.{
  ℕ, zero, suc, Bool, true, false, Option, none, some, List, [], ◌∷◌, ◌++◌, ltb, ◌==◌,
  if◌then◌else◌, length,
}
use krellin.Protocol.{Event}

pub record Channel : Type 0 where
  pub capacity : ℕ
  pub held : List Event

-- A send in a `select` with a default: a full channel takes nothing.
unfoldable pub offer : Event → Channel → Channel
offer event ch =
    if ltb (length ch.held) ch.capacity then record ch { held = ch.held ++ event ∷ [] } else ch

-- The subscribers by the number of their subscription, and the events that a new one is given.
pub record Hub : Type 0 where
  pub next : ℕ
  pub subscribers : List (ℕ × Channel)
  pub started_event : Option Event
  pub last_error_event : Option Event

unfoldable pub offer_all : Event → List (ℕ × Channel) → List (ℕ × Channel)
offer_all event [] = []
offer_all event ((id, ch) ∷ subscribers) = (id, offer event ch) ∷ offer_all event subscribers

-- `Emit`
unfoldable pub emit : Event → Hub → Hub
emit event hub = record hub { subscribers = offer_all event hub.subscribers }

abbrev greeted : Option Event → Channel → Channel
greeted none ch = ch
greeted (some event) ch = offer event ch

-- `Subscribe`, with no `Emit` between its two parts.
unfoldable pub subscribe : ℕ → Hub → ℕ × Hub
subscribe buffer hub =
    let ch =
      greeted hub.last_error_event
        (greeted hub.started_event (record { capacity = buffer; held = [] })) in
    (hub.next, record hub { next = suc hub.next; subscribers = (hub.next, ch) ∷ hub.subscribers })

unfoldable pub without : ℕ → List (ℕ × Channel) → List (ℕ × Channel)
without id [] = []
without id ((i, ch) ∷ subscribers) =
    let rest = without id subscribers in if i == id then rest else (i, ch) ∷ rest

-- `Unsubscribe`
unfoldable pub unsubscribe : ℕ → Hub → Hub
unsubscribe id hub = record hub { subscribers = without id hub.subscribers }

unfoldable pub channel_of : ℕ → List (ℕ × Channel) → Option Channel
channel_of id [] = none
channel_of id ((i, ch) ∷ subscribers) = if i == id then some ch else channel_of id subscribers

-- A sequence of `Emit`.
unfoldable pub emit_all : List Event → Hub → Hub
emit_all [] hub = hub
emit_all (event ∷ events) hub = emit_all events (emit event hub)
