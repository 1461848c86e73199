-- ===== src/Daemon/Router.antt =====
-- internal/daemon/router.go and handshake.go: how a connection is opened, and which session gets its actions. What
-- the connection holds is decoded by the JSON library; the table of sessions is the one of the moment.
pub mod Served
pub mod Greeted
pub mod Addressed
use krellin.Prelude.{
  ℕ, Bool, true, false, not, ◌&&◌, Option, none, some, List, [], ◌∷◌, if◌then◌else◌,
}
use krellin.Prelude.Text.{Text, codes, text_eq, is_empty}
use krellin.Prelude.Result.{Result, ok, err}
use krellin.Protocol.{Action}
use krellin.Daemon.{Session, Daemon, session}

-- Why a connection ends with an error.
pub data ConnError : Type 0 where
  invalid_request session_not_found cancelled : ConnError
  failed : Text → ConnError

pub record ConnectRequest : Type 0 where
  pub kind : Text
  pub session_id : Text
  pub repo_root : Text
  pub subscribe : Bool

-- `ReadConnect`
unfoldable pub read_connect : Result Text ConnectRequest → Result ConnError ConnectRequest
read_connect (err e) = err (failed e)
read_connect (ok req) = if text_eq req.kind (codes "connect") then ok req else err invalid_request

-- What a client is sent before its events: an error event, or the answer to its request.
pub data Response : Type 0 where
  refusal : Text → Response
  connected : Text → Response

-- A connection that is open: the session of actions that name none, and whether events are sent.
pub record Open : Type 0 where
  pub session_id : Text
  pub subscribed : Bool

module _ {S : Type 0} (ensure : Text → Daemon → S → Result Text Session × Daemon × S) where
  -- The replies, the connection or the error, and what the daemon is then.
  abbrev Opened : Type 0
  Opened = List Response × Result ConnError Open × Daemon × S

  -- `Subscribe` fails where the session is not there.
  abbrev pub joined : Text → Option Session → Result ConnError Open
  joined id none = err session_not_found
  joined id (some s) = ok (record { session_id = id; subscribed = true })

  unfoldable pub answer : Text → Bool → Daemon → S → Opened
  unfolding session
  answer id subscribe d s = (
    connected id ∷ [],
    if subscribe
        then joined id (session id d)
        else ok (record { session_id = id; subscribed = false }),
    d,
    s,
  )

  abbrev pub unless_empty : Text → Bool → Daemon → S → Opened
  unless_empty id subscribe d s =
      if is_empty id then ([], err session_not_found, d, s) else answer id subscribe d s

  abbrev pub ensured : Bool → Result Text Session × Daemon × S → Opened
  ensured subscribe (err e, d, s) = (refusal e ∷ [], err (failed e), d, s)
  ensured subscribe (ok found, d, s) = unless_empty found.id subscribe d s

  abbrev pub requested : Result ConnError ConnectRequest → Daemon → S → Opened
  requested (err e) d s = ([], err e, d, s)
  requested (ok req) d s =
      if is_empty req.session_id && not (is_empty req.repo_root)
      then ensured req.subscribe (ensure req.repo_root d s)
      else unless_empty req.session_id req.subscribe d s

  -- `ServeConn` up to its loop, for the session given by the caller and the request that is read
  unfoldable pub open_conn : Text → Result Text ConnectRequest → Daemon → S → Opened
  unfolding read_connect answer
  open_conn id request d s =
      if is_empty id then requested (read_connect request) d s else answer id true d s

-- What the loop of `ServeConn` is woken by: the end of the context, of the sending of events or of the reading
-- of actions, and an action, with the daemon as it is then.
pub data Signal : Type 0 where
  context_done : Signal
  sending_ended : Option Text → Signal
  actions_closed : Signal
  acted : Daemon → Action → Signal

-- What has become of the loop.
pub data Loop : Type 0 where
  waiting closed : Loop
  ended : ConnError → Loop

-- An action that names no session is for the one of the connection.
unfoldable pub addressed : Text → Action → Action
addressed id action =
    if is_empty action.session_id then record action { session_id = id } else action

abbrev pub Submissions : Type 0
Submissions = List (Session × Action)

abbrev pub submitted : Option Session → Action → Loop × Submissions → Loop × Submissions
submitted none action rest = (ended session_not_found, [])
submitted (some s) action (loop, log) = (loop, (s, action) ∷ log)

-- The loop of `ServeConn`, with the actions that are submitted to sessions.
unfoldable pub serve_loop : Text → List Signal → Loop × Submissions
unfolding addressed session
serve_loop id [] = (waiting, [])
serve_loop id (context_done ∷ signals) = (ended cancelled, [])
serve_loop id (sending_ended (some e) ∷ signals) = (ended (failed e), [])
serve_loop id (sending_ended none ∷ signals) = serve_loop id signals
serve_loop id (actions_closed ∷ signals) = (closed, [])
serve_loop id (acted d action ∷ signals) =
    let a = addressed id action in submitted (session a.session_id d) a (serve_loop id signals)
