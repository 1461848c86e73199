-- ===== src/Tests/Daemon.antt =====
-- The daemon on concrete requests, calls that overlap, and actions of a connection.
use krellin.Prelude.{true, ◌≡◌, refl, ℕ, suc, false, some, List, [], ◌∷◌, if◌then◌else◌}
use krellin.Prelude.Text.{Text, codes, text_eq, is_empty}
use krellin.Prelude.Dict.{lookup, insert}
use krellin.Prelude.Result.{Result, ok, err}
use krellin.Protocol.{Action}
use krellin.Daemon.{
  Session, Daemon, new_daemon, session_id, session, register, launch, numbered, present, Factory,
  ensure_session_for_repo,
}
use krellin.Daemon.Refines.{answers, numbers_of, new_registry, get_or_make, answers-get_or_make}
use krellin.Daemon.Races.{looking, Shared, here, next, miss, make, enter, begin, set_call}
use krellin.Daemon.Races.Known.{Steps-Known}
use krellin.Daemon.Router.{Signal, ConnectRequest, acted, open_conn}
use krellin.Daemon.Router.Served.{Serves, open_conn-Serves}

-- Paths are their own roots, but for the empty one; the factory counts its calls.
abbrev root_of : Text → ℕ → Result Text Text
root_of path calls = if is_empty path then err (codes "no root") else ok path

abbrev factory : Factory ℕ
factory root calls = (ok [], suc calls)

abbrev paths : List Text
paths = codes "/a" ∷ codes "/b" ∷ [] ∷ codes "/a" ∷ []

answers-get_or_make_example :
    ◌≡◌ {A = List (Result Text ℕ) × ℕ}
      (
        numbers_of (answers (ensure_session_for_repo root_of (some factory)) paths new_daemon 0).0,
        (answers (ensure_session_for_repo root_of (some factory)) paths new_daemon 0).1,
      )
      (answers (get_or_make root_of factory) paths new_registry 0)
answers-get_or_make_example = answers-get_or_make root_of factory (λ root s t own e. cc) paths 0

abbrev roots : ℕ → Text
roots i = codes "/a"

abbrev idle : Shared
idle = record { daemon = new_daemon; calls = λ i. looking }

abbrev nth : ℕ → Session
nth n = record { number = n; id = session_id n; repo_root = codes "/a" }

-- Two calls for one root that both find nothing and make a session each.
abbrev both : Daemon
both = record {
  counter = 2;
  made = 2;
  sessions = (session_id 1, nth 1) ∷ (session_id 2, nth 2) ∷ [];
  by_repo = (codes "/a", session_id 2) ∷ [];
  launched = nth 2 ∷ nth 1 ∷ [];
}

Steps-Known_example :
    ((nth 1).repo_root ≡ codes "/a") × (session (session_id 1) both ≡ some (nth 1))
unfolding set_call numbered register launch present lookup insert is_empty session_id text_eq
Steps-Known_example =
    Steps-Known roots _
      (next
        (next
          (next
            (next
              (next
                (next (next (next here (miss idle 0 refl refl)) (miss _ 1 refl refl))
                  (make _ 0 refl))
                (make _ 1 refl))
              (enter _ 0 (nth 1) refl))
            (enter _ 1 (nth 2) refl))
          (begin _ 0 (nth 1) refl))
        (begin _ 1 (nth 2) refl))
      0 (nth 1) refl

abbrev action_for : Text → Action
action_for id = record {
  action_id = codes "1";
  session_id = id;
  agent_id = codes "user";
  kind = codes "run_command";
  zero_time = false;
  payload = [];
}

abbrev signals : List Signal
signals = acted both (action_for []) ∷ acted both (action_for (codes "x")) ∷ []

abbrev request : ConnectRequest
request = record {
  kind = codes "connect";
  session_id = [];
  repo_root = codes "/a";
  subscribe = true;
}

open_conn-Serves_example :
    Serves signals
      (open_conn (ensure_session_for_repo root_of (some factory)) [] (ok request) new_daemon 0)
open_conn-Serves_example =
    open_conn-Serves (ensure_session_for_repo root_of (some factory)) [] (ok request) new_daemon 0
      signals
