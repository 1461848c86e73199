-- ===== src/Daemon/Router/Greeted.antt =====
-- How a connection is opened: what the client is told, and the session that it gets.
use krellin.Prelude.{
  ◌≡◌, refl, Bool, true, false, not, ◌&&◌, Option, none, some, List, [], ◌∷◌, if_both,
}
use krellin.Prelude.Text.{Text, is_empty}
use krellin.Prelude.Result.{Result, ok, err}
use krellin.Daemon.{Session, Daemon, session}
use krellin.Daemon.Router.{
  ConnError, ConnectRequest, read_connect, Response, connected, Open, joined, answer, unless_empty,
  ensured, requested, open_conn,
}

-- The session is there, where events are sent.
abbrev There : Bool → Option Session → Type 0
There false o = Unit
There true none = ⊥
There true (some s) = Unit

-- An open connection was told its session and nothing else, and the session has an id; where events are sent, it is there.
abbrev pub Greets : {S : Type 0} → List Response × Result ConnError Open × Daemon × S → Type 0
Greets (replies, err e, d, s) = Unit
Greets (replies, ok o, d, s) =
    (replies ≡ connected o.session_id ∷ [])
    × (is_empty o.session_id ≡ false)
    × There o.subscribed (session o.session_id d)

module _ {S : Type 0} (ensure : Text → Daemon → S → Result Text Session × Daemon × S) where
  joined-Greets :
      (id : Text) (o : Option Session) (d : Daemon) (s : S)
      → is_empty id ≡ false
      → session id d ≡ o
      → Greets (connected id ∷ [], joined ensure id o, d, s)
  joined-Greets id none d s named at = tt
  joined-Greets id (some found) d s named at = (refl, named, rw at tt)

  answer-Greets :
      (id : Text) (subscribe : Bool) (d : Daemon) (s : S)
      → is_empty id ≡ false
      → Greets (answer ensure id subscribe d s)
  unfolding answer
  answer-Greets id true d s named = joined-Greets id (session id d) d s named refl
  answer-Greets id false d s named = (refl, named, tt)

  named-Greets :
      (id : Text) (subscribe : Bool) (d : Daemon) (s : S)
      → Greets (unless_empty ensure id subscribe d s)
  named-Greets id subscribe d s =
      if_both Greets (is_empty id) _ _ (λ e. tt) (λ e. answer-Greets id subscribe d s e)

  ensured-Greets :
      (subscribe : Bool) (found : Result Text Session × Daemon × S)
      → Greets (ensured ensure subscribe found)
  ensured-Greets subscribe (err e, d, s) = tt
  ensured-Greets subscribe (ok found, d, s) = named-Greets found.id subscribe d s

  requested-Greets :
      (request : Result ConnError ConnectRequest) (d : Daemon) (s : S)
      → Greets (requested ensure request d s)
  requested-Greets (err e) d s = tt
  requested-Greets (ok req) d s =
      if_both Greets (is_empty req.session_id && not (is_empty req.repo_root)) _ _
        (λ e. ensured-Greets req.subscribe (ensure req.repo_root d s))
        (λ e. named-Greets req.session_id req.subscribe d s)

  -- A connection that is opened was told `connected` with its session's id and nothing else, the id is not empty,
  -- and where events are to be sent the daemon has the session.
  pub open_conn-Greets :
      (id : Text) (request : Result Text ConnectRequest) (d : Daemon) (s : S)
      → Greets (open_conn ensure id request d s)
  unfolding open_conn
  open_conn-Greets id request d s =
      if_both Greets (is_empty id) _ _ (λ e. requested-Greets (read_connect request) d s)
        (λ e. answer-Greets id true d s e)
