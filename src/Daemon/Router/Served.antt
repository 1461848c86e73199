-- ===== src/Daemon/Router/Served.antt =====
-- A connection from its opening to its end.
use krellin.Prelude.{List}
use krellin.Prelude.Text.{Text}
use krellin.Prelude.Result.{Result, ok, err}
use krellin.Daemon.{Session, Daemon}
use krellin.Daemon.Router.{ConnError, ConnectRequest, Response, Open, Signal, open_conn, serve_loop}
use krellin.Daemon.Router.Greeted.{Greets, open_conn-Greets}
use krellin.Daemon.Router.Addressed.{Delivers, serve_loop-Delivers}

-- An open connection delivers.
abbrev pub Serves :
    {S : Type 0} → List Signal → List Response × Result ConnError Open × Daemon × S → Type 0
Serves signals (replies, err e, d, s) = Unit
Serves signals (replies, ok o, d, s) =
    Greets (replies, ok o, d, s) × Delivers o.session_id signals (serve_loop o.session_id signals)

Greets-Serves :
    {S : Type 0} (signals : List Signal)
    (opened : List Response × Result ConnError Open × Daemon × S)
    → Greets opened
    → Serves signals opened
Greets-Serves signals (replies, err e, d, s) h = tt
Greets-Serves signals (replies, ok o, d, s) (told, named, there) =
    ((told, named, there), serve_loop-Delivers o.session_id signals named)

-- Whatever a client sends first: where its connection is opened, it was told `connected` with the session's id and
-- nothing else, and where events are sent the daemon has the session; the actions that come then are submitted
-- in order, each to the session that the daemon finds under the id in the action, or under the connection's where the
-- action has none; none is left out while the loop runs on, and the loop ends with `session not found` only at an
-- action whose session is not there.
pub open_conn-Serves :
    {S : Type 0} (ensure : Text → Daemon → S → Result Text Session × Daemon × S) (id : Text)
    (request : Result Text ConnectRequest) (d : Daemon) (s : S) (signals : List Signal)
    → Serves signals (open_conn ensure id request d s)
open_conn-Serves ensure id request d s signals =
    Greets-Serves signals (open_conn ensure id request d s) (open_conn-Greets ensure id request d s)
