-- ===== src/Daemon.antt =====
-- internal/daemon: daemon.go, ensure.go, lifecycle.go, handshake.go and router.go, one call after another. The
-- search for the root of a repository, the factory of sessions (cmd/krellind gives app.BuildSession) and what
-- a session does with an action are parameters.
pub mod Ids
pub mod Refines
pub mod Races
pub mod Router
use krellin.Prelude.{
  ℕ, suc, ◌+◌, Bool, true, false, not, Option, none, some, List, [], ◌∷◌, ◌++◌, if◌then◌else◌,
}
use krellin.Prelude.Text.{Text, codes, text_eq, is_empty}
use krellin.Prelude.Dict.{Dict, lookup, insert}
use krellin.Prelude.Result.{Result, ok, err}
use krellin.Tools.Output.{itoa}
use krellin.Protocol.{Action}

-- A session as the daemon uses it: which one it is, its id, and the repository it was made for.
pub record Session : Type 0 where
  pub number : ℕ
  pub id : Text
  pub repo_root : Text

-- The daemon, with the counter of ids, the number of sessions made so far, and those that `Start` was called on.
pub record Daemon : Type 0 where
  pub counter : ℕ
  pub made : ℕ
  pub sessions : Dict Session
  pub by_repo : Dict Text
  pub launched : List Session

-- `New`
abbrev pub new_daemon : Daemon
new_daemon = record { counter = 0; made = 0; sessions = []; by_repo = []; launched = [] }

-- `fmt.Sprintf("s-%d", n)`
unfoldable pub session_id : ℕ → Text
unfolding itoa
session_id n = codes "s-" ++ itoa n

-- `Session`
unfoldable pub session : Text → Daemon → Option Session
session id d = lookup id d.sessions

abbrev id_or_empty : Option Text → Text
id_or_empty none = []
id_or_empty (some id) = id

-- `SessionByRepo`
unfoldable pub session_by_repo : Text → Daemon → Option Session
unfolding lookup
session_by_repo root d = lookup (id_or_empty (lookup root d.by_repo)) d.sessions

-- A session in the two tables
unfoldable pub register : Text → Session → Daemon → Daemon
register root s d = record d {
  sessions = insert s.id s d.sessions;
  by_repo = insert root s.id d.by_repo;
}

-- A session with no repository is in the first one only.
unfoldable register_started : Text → Session → Daemon → Daemon
unfolding register
register_started root s d =
    if is_empty root then record d { sessions = insert s.id s d.sessions } else register root s d

unfoldable pub launch : Session → Daemon → Daemon
launch s d = record d { launched = s ∷ d.launched }

-- A session that is made with an id of its own, or with the next one of the daemon.
unfoldable pub numbered : Text → Text → Daemon → Session × Daemon
numbered root own d =
    if is_empty own
    then (
      record { number = suc d.made; id = session_id (suc d.counter); repo_root = root },
      record d { made = suc d.made; counter = suc d.counter },
    )
    else (
      record { number = suc d.made; id = own; repo_root = root },
      record d { made = suc d.made },
    )

-- `StartSession`
unfoldable pub start_session : Text → Daemon → Session × Daemon
unfolding numbered register_started launch
start_session root d =
    let (s, d₁) = numbered root [] d in (s, register_started root s (launch s d₁))

abbrev or_start : Option Session → Text → Daemon → Session × Daemon
or_start (some s) root d = (s, d)
or_start none root d = start_session root d

-- `EnsureSession`
unfoldable pub ensure_session : Text → Daemon → Session × Daemon
ensure_session root d =
    if not (is_empty root) then or_start (session_by_repo root d) root d else start_session root d

-- The session that is reused for a repository.
abbrev pub with_id : Option Text → Dict Session → Option Session
with_id none sessions = none
with_id (some id) sessions = if not (is_empty id) then lookup id sessions else none

unfoldable pub present : Text → Daemon → Option Session
unfolding lookup
present root d = with_id (lookup root d.by_repo) d.sessions

-- A factory gives the id of the session that it makes, most often the empty one, or an error.
abbrev pub Factory : Type 0 → Type 0
Factory S = Text → S → Result Text Text × S

module _ {S : Type 0} where
  -- A session is registered before it is started.
  abbrev pub kept : Text → Result Text Text × S → Daemon → Result Text Session × Daemon × S
  kept root (err e, outside) d = (err e, d, outside)
  kept root (ok own, outside) d =
      let (s, d₁) = numbered root own d in (ok s, launch s (register root s d₁), outside)

  abbrev plain : Session × Daemon → S → Result Text Session × Daemon × S
  plain (s, d) outside = (ok s, d, outside)

  abbrev made_by : Option (Factory S) → Text → Daemon → S → Result Text Session × Daemon × S
  made_by (some factory) root d outside = kept root (factory root outside) d
  made_by none root d outside = plain (ensure_session root d) outside

  abbrev or_made :
      Option Session → Option (Factory S) → Text → Daemon → S → Result Text Session × Daemon × S
  or_made (some s) factory root d outside = (ok s, d, outside)
  or_made none factory root d outside = made_by factory root d outside

  abbrev pub at_root :
      Result Text Text → Option (Factory S) → Daemon → S → Result Text Session × Daemon × S
  at_root (err e) factory d outside = (err e, d, outside)
  at_root (ok root) factory d outside = or_made (present root d) factory root d outside

  -- `EnsureSessionForRepo`, which `EnsureSessionFromHandshake` is
  unfoldable pub ensure_session_for_repo :
      (Text → S → Result Text Text)
      → Option (Factory S)
      → Text
      → Daemon
      → S
      → Result Text Session × Daemon × S
  unfolding present
  ensure_session_for_repo resolve factory path d outside =
      at_root (resolve path outside) factory d outside
