-- ===== src/Daemon/Router/Addressed.antt =====
-- The actions of a connection reach the sessions that they are for, in order.
use krellin.Prelude.{
  ◌≡◌, refl, ap, Option, none, some, List, [], ◌∷◌, ◌++◌, All, false, if◌then◌else◌,
}
use krellin.Prelude.Text.{Text, is_empty}
use krellin.Protocol.{Action}
use krellin.Daemon.{Session, Daemon, session}
use krellin.Daemon.Router.{
  Signal, context_done, sending_ended, actions_closed, acted, Loop, waiting, closed, ended,
  session_not_found, addressed, Submissions, serve_loop, cancelled, failed, submitted,
  invalid_request,
}

-- The session that an action is for, in a connection with a session: the one that it names, or that of the
-- connection where it names none.
abbrev for_session : Text → Text → Text
for_session id [] = id
for_session id (c ∷ named) = c ∷ named

abbrev meant : Text → Action → Action
meant id action = record action { session_id = for_session id action.session_id }

addressed-meant : (id : Text) (action : Action) → addressed id action ≡ meant id action
unfolding addressed is_empty
addressed-meant id action = go action.session_id
  where
    go :
        (t : Text)
        → (if is_empty t
            then record action { session_id = id }
            else record action { session_id = t })
          ≡ record action { session_id = for_session id t }
    go [] = refl
    go (c ∷ t) = refl

-- The actions that came, with the sessions that the daemon finds for them at that moment.
unfoldable pub targets : Text → List Signal → List (Option Session × Action)
unfolding session
targets id [] = []
targets id (acted d action ∷ signals) =
    let a = meant id action in (session a.session_id d, a) ∷ targets id signals
targets id (context_done ∷ signals) = targets id signals
targets id (sending_ended o ∷ signals) = targets id signals
targets id (actions_closed ∷ signals) = targets id signals

unfoldable pub found_targets : Submissions → List (Option Session × Action)
found_targets [] = []
found_targets ((s, a) ∷ log) = (some s, a) ∷ found_targets log

-- What is left where the loop is: nothing while it runs on, an action for no session where it ended for that.
abbrev Left : Loop → List (Option Session × Action) → Type 0
Left waiting rest = rest ≡ []
Left closed rest = Unit
Left (ended session_not_found) rest =
    (a : Action) × (more : List (Option Session × Action)) × (rest ≡ (none, a) ∷ more)
Left (ended invalid_request) rest = ⊥
Left (ended cancelled) rest = Unit
Left (ended (failed e)) rest = Unit

abbrev Named : Session × Action → Type 0
Named (s, a) = is_empty a.session_id ≡ false

meant-Named :
    (id : Text) (action : Action)
    → is_empty id ≡ false
    → is_empty (meant id action).session_id ≡ false
unfolding is_empty
meant-Named id action named = go action.session_id
  where
    go : (t : Text) → is_empty (for_session id t) ≡ false
    go [] = named
    go (c ∷ t) = refl

abbrev pub Delivers : Text → List Signal → Loop × Submissions → Type 0
Delivers id signals (loop, log) =
    All Named log
    × (rest : List (Option Session × Action)) × (targets id signals ≡ found_targets log ++ rest)
    × Left loop rest

acted-Delivers :
    (id : Text) (d : Daemon) (action : Action) (signals : List Signal) (o : Option Session)
    → is_empty (meant id action).session_id ≡ false
    → session (meant id action).session_id d ≡ o
    → Delivers id signals (serve_loop id signals)
    → Delivers id (acted d action ∷ signals) (submitted o (meant id action) (serve_loop id signals))
unfolding targets found_targets
acted-Delivers id d action signals none named at h =
    (tt, _, refl, (_, _, ap (λ o. (o, meant id action) ∷ targets id signals) at))
acted-Delivers id d action signals (some s) named at (all, rest, same, left) =
    ((named, all), rest, rw at (ap (λ xs. (some s, meant id action) ∷ xs) same), left)

-- Of a connection whose session has an id: the actions that came are submitted in order, each to the session that
-- the daemon finds under the id in the action, or under the connection's where the action has none; none is left
-- out while the loop runs on, and the loop ends with `session not found` only at an action whose session is not there.
pub serve_loop-Delivers :
    (id : Text) (signals : List Signal)
    → is_empty id ≡ false
    → All Named (serve_loop id signals).1
      × (rest : List (Option Session × Action)) × (targets id signals
          ≡ found_targets (serve_loop id signals).1 ++ rest)
      × Left (serve_loop id signals).0 rest
unfolding serve_loop targets found_targets
serve_loop-Delivers id [] h = (tt, [], refl, refl)
serve_loop-Delivers id (context_done ∷ signals) h = (tt, _, refl, tt)
serve_loop-Delivers id (sending_ended (some e) ∷ signals) h = (tt, _, refl, tt)
serve_loop-Delivers id (sending_ended none ∷ signals) h = serve_loop-Delivers id signals h
serve_loop-Delivers id (actions_closed ∷ signals) h = (tt, _, refl, tt)
serve_loop-Delivers id (acted d action ∷ signals) h = rw (addressed-meant id action) (
    acted-Delivers id d action signals (session (meant id action).session_id d)
      (meant-Named id action h) refl (serve_loop-Delivers id signals h))
