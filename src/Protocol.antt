-- ===== src/Protocol.antt =====
-- internal/protocol/protocol.go: what actions and events are taken.
use krellin.Prelude.{Bool, false, not, Option, none, some, List, [], ◌∷◌, ◌||◌, if◌then◌else◌}
use krellin.Prelude.Text.{Text, codes, text_eq, is_empty}

-- A timestamp counts only by being the zero time or not.
pub record Action : Type 0 where
  pub action_id : Text
  pub session_id : Text
  pub agent_id : Text
  pub kind : Text
  pub zero_time : Bool
  pub payload : Text

pub record Event : Type 0 where
  pub event_id : Text
  pub session_id : Text
  pub zero_time : Bool
  pub kind : Text
  pub source : Text
  pub agent_id : Text
  pub payload : Text

pub data ProtocolError : Type 0 where
  action_id_required session_id_required agent_id_required timestamp_required : ProtocolError
  unknown_action_type event_id_required unknown_event_type unknown_event_source : ProtocolError

abbrev valid_action_types : List Text
valid_action_types =
    codes "run_command"
    ∷ codes "apply_patch"
    ∷ codes "freeze"
    ∷ codes "reset"
    ∷ codes "network_toggle"
    ∷ codes "containers_list"
    ∷ codes "revert"
    ∷ codes "agents_list"
    ∷ codes "agents_set_active"
    ∷ codes "agents_toggle"
    ∷ codes "agents_add"
    ∷ codes "agent_prompt"
    ∷ codes "agents_delete"
    ∷ []

abbrev pub valid_event_types : List Text
valid_event_types =
    codes "session.started"
    ∷ codes "executor.busy"
    ∷ codes "executor.idle"
    ∷ codes "action.started"
    ∷ codes "action.finished"
    ∷ codes "terminal.output"
    ∷ codes "agent.message"
    ∷ codes "agents.list"
    ∷ codes "diff.ready"
    ∷ codes "freeze.created"
    ∷ codes "reset.completed"
    ∷ codes "network.changed"
    ∷ codes "containers.list"
    ∷ codes "error"
    ∷ []

abbrev pub valid_event_sources : List Text
valid_event_sources = codes "system" ∷ codes "executor" ∷ codes "agent" ∷ []

unfoldable pub one_of : Text → List Text → Bool
one_of text [] = false
one_of text (t ∷ ts) = text_eq text t || one_of text ts

-- `ValidateAction`; `none` is the result nil.
unfoldable pub validate_action : Action → Option ProtocolError
validate_action a =
    if is_empty a.action_id
    then some action_id_required
    else if is_empty a.session_id
    then some session_id_required
    else if is_empty a.agent_id
    then some agent_id_required
    else if a.zero_time
    then some timestamp_required
    else if not (one_of a.kind valid_action_types)
    then some unknown_action_type
    else none

-- `ValidateEvent`
unfoldable pub validate_event : Event → Option ProtocolError
validate_event e =
    if is_empty e.event_id
    then some event_id_required
    else if is_empty e.session_id
    then some session_id_required
    else if e.zero_time
    then some timestamp_required
    else if not (one_of e.kind valid_event_types)
    then some unknown_event_type
    else if not (one_of e.source valid_event_sources)
    then some unknown_event_source
    else none
