-- ===== src/Session/Start.antt =====
-- `Start` of internal/session/session.go with the policy of internal/session/capsule.go, and the order in which `Start`
-- and `Subscribe` take the session's lock.
pub mod Heard
pub mod Guarded
use krellin.Prelude.{
  ℕ, suc, Bool, true, false, Option, none, some, List, [], ◌∷◌, ◌++◌, ◌≡◌, ◌==◌, if◌then◌else◌, In,
  ltb, length, drop,
}
use krellin.Prelude.Text.{Text, codes, trim_prefix}
use krellin.Policy.{Policy, MountError, validate_mount}
use krellin.Capsule.{Config}
use krellin.Protocol.{Event}
use krellin.Session.Events.{Channel, offer, Hub, emit, unsubscribe}

-- Why a capsule is not there: the mount was refused, or the back end failed.
pub data EnsureError : Type 0 where
  refused : MountError → EnsureError
  failed : Text → EnsureError

-- A session as far as `Start` goes: `startOnce`, whether it has a capsule, `started`, whether the executor runs,
-- and the subscribers with the events that new ones are given.
pub record Boot (S : Type 0) : Type 0 where
  pub once_done : Bool
  pub has_capsule : Bool
  pub started : Bool
  pub executor_runs : Bool
  pub hub : Hub
  pub outside : S

-- The events of `Start`.
pub record Notices : Type 0 where
  pub banner : Event
  pub ensure_error : Event
  pub session_started : Event

-- What the configuration of the capsule is taken from.
pub record Setup : Type 0 where
  pub capsule_name : Text
  pub repo_root : Text
  pub image_digest : Text
  pub capsule_user : Text
  pub network_on : Bool
  pub cpus : ℕ
  pub memory_mb : ℕ

unfoldable config_of : Setup → Config
config_of setup = record {
  repo_id = trim_prefix setup.capsule_name (codes "krellin-");
  repo_root = setup.repo_root;
  image_digest = setup.image_digest;
  user = setup.capsule_user;
  network_on = setup.network_on;
  cpus = setup.cpus;
  memory_mb = setup.memory_mb;
  created_at = [];
}

module _ {S : Type 0} (ensure : Config → S → Option Text × S) where
  abbrev ended : Option Text × S → Option EnsureError × S
  ended (none, s) = (none, s)
  ended (some e, s) = (some (failed e), s)

  abbrev if_allowed : Option MountError → Config → S → Option EnsureError × S
  if_allowed (some e) cfg s = (some (refused e), s)
  if_allowed none cfg s = ended (ensure cfg s)

  -- `CapsuleManager.Ensure`
  unfoldable pub manager_ensure : Policy → Config → S → Option EnsureError × S
  manager_ensure policy cfg s = if_allowed (validate_mount policy cfg.repo_root) cfg s

  started_hub : Event → Hub → Hub
  started_hub event hub = emit event (record hub { started_event = some event })

  failed_hub : Notices → Hub → Hub
  failed_hub notices hub =
      emit notices.ensure_error
        (record (emit notices.banner hub) { last_error_event = some notices.ensure_error })

  abbrev booted : Notices → Boot S → Boot S
  booted notices b = record b {
    started = true;
    executor_runs = true;
    hub = started_hub notices.session_started b.hub;
  }

  abbrev ensured : Notices → Boot S → Option EnsureError × S → Boot S
  ensured notices b (some e, s) = record b { outside = s; hub = failed_hub notices b.hub }
  ensured notices b (none, s) = booted notices (record b { outside = s })

  abbrev first_start : Policy → Setup → Notices → Boot S → Boot S
  first_start policy setup notices b =
      if b.has_capsule
      then ensured notices b (manager_ensure policy (config_of setup) b.outside)
      else booted notices b

  -- `Start`, with no other call between its parts
  unfoldable pub start_session : Policy → Setup → Notices → Boot S → Boot S
  unfolding started_hub failed_hub config_of
  start_session policy setup notices b =
      if b.once_done then b else first_start policy setup notices (record b { once_done = true })

-- A channel is given an event, wherever it stands.
unfoldable pub offer_to : ℕ → Event → List (ℕ × Channel) → List (ℕ × Channel)
offer_to id event [] = []
offer_to id event ((i, ch) ∷ subscribers) =
    (i, if i == id then offer event ch else ch) ∷ offer_to id event subscribers

unfoldable pub forget : ℕ → List ℕ → List ℕ
forget id [] = []
forget id (i ∷ ids) = let rest = forget id ids in if i == id then rest else i ∷ rest

-- The subscriptions whose channel is full, and the one of a number where its channel is full.
unfoldable pub full_of : List (ℕ × Channel) → List ℕ
full_of [] = []
full_of ((i, ch) ∷ subscribers) =
    let rest = full_of subscribers in if ltb (length ch.held) ch.capacity then rest else i ∷ rest

unfoldable pub full_at : ℕ → List (ℕ × Channel) → List ℕ
full_at id [] = []
full_at id ((i, ch) ∷ subscribers) =
    let rest = full_at id subscribers in
    if i == id then (if ltb (length ch.held) ch.capacity then rest else i ∷ rest) else rest

-- A read takes the first event out of a channel.
unfoldable pub take_from : ℕ → List (ℕ × Channel) → List (ℕ × Channel)
take_from id [] = []
take_from id ((i, ch) ∷ subscribers) =
    (i, if i == id then record ch { held = drop 1 ch.held } else ch) ∷ take_from id subscribers

abbrev pub first_of : ℕ → List Event → List (ℕ × Event)
first_of i [] = []
first_of i (event ∷ events) = (i, event) ∷ []

unfoldable pub read_of : ℕ → List (ℕ × Channel) → List (ℕ × Event)
read_of id [] = []
read_of id ((i, ch) ∷ subscribers) =
    let rest = read_of id subscribers in if i == id then first_of i ch.held ++ rest else rest

-- `Start` between its two takings of the lock: it marks the session as started, then it emits.
pub data Phase : Type 0 where
  before marked sent : Phase

-- The subscriptions that have seen the event and not sent it to their own channel yet are `due`. What was read from
-- the channels is kept, and which were full when the event was sent to them.
pub record Shared : Type 0 where
  pub hub : Hub
  pub phase : Phase
  pub due : List ℕ
  pub received : List (ℕ × Event)
  pub missed : List ℕ

abbrev pub noted : Option Event → ℕ → List ℕ → List ℕ
noted none id due = due
noted (some event) id due = id ∷ due

abbrev pub registered : ℕ → Shared → Shared
registered buffer r = record r {
  hub = record r.hub {
    next = suc r.hub.next;
    subscribers = (r.hub.next, record { capacity = buffer; held = [] }) ∷ r.hub.subscribers;
  };
  due = noted r.hub.started_event r.hub.next r.due;
}

-- The steps of `Start`, of `Subscribe` in its parts, of `Emit` of other events, of `Unsubscribe`, and of the readers
-- of the channels.
pub data Step (event : Event) : Shared → Shared → Type 0 where
  mark :
      (r : Shared)
      → r.phase ≡ before
      → Step event r
          (record r { hub = record r.hub { started_event = some event }; phase = marked })
  send :
      (r : Shared)
      → r.phase ≡ marked
      → Step event r (record r {
        hub = emit event r.hub;
        phase = sent;
        missed = full_of r.hub.subscribers ++ r.missed;
      })
  register : (r : Shared) (buffer : ℕ) → Step event r (registered buffer r)
  greet :
      (r : Shared) (id : ℕ)
      → In id r.due
      → Step event r (record r {
        hub = record r.hub { subscribers = offer_to id event r.hub.subscribers };
        due = forget id r.due;
        missed = full_at id r.hub.subscribers ++ r.missed;
      })
  greet_error :
      (r : Shared) (id : ℕ) (other : Event)
      → Step event r
          (record r { hub = record r.hub { subscribers = offer_to id other r.hub.subscribers } })
  read :
      (r : Shared) (id : ℕ)
      → Step event r (record r {
        hub = record r.hub { subscribers = take_from id r.hub.subscribers };
        received = read_of id r.hub.subscribers ++ r.received;
      })
  leave : (r : Shared) (id : ℕ) → Step event r (record r { hub = unsubscribe id r.hub })
  emit_other : (r : Shared) (other : Event) → Step event r (record r { hub = emit other r.hub })

pub data Steps (event : Event) (r : Shared) : Shared → Type 0 where
  here : Steps event r r
  next : {s t : Shared} → Steps event r s → Step event s t → Steps event r t
