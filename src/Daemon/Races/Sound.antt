-- ===== src/Daemon/Races/Sound.antt =====
-- What is kept where calls of `EnsureSessionForRepo` overlap: sessions that were registered are found, and ids that
-- are not registered yet are new.
use mathlib.Core.Path.{subst}
use krellin.Prelude.{
  ℕ, suc, ◌≤◌, ◌<◌, ◌≡◌, ◌≢◌, ap, ◌∙◌, Option, none, some, arith, inl, inr, Bool-cases, true, false,
  Bool, ◌==◌, not, if◌then◌else◌,
}
use krellin.Prelude.Text.{Text, is_empty}
use krellin.Prelude.Dict.{Dict, lookup, insert}
use krellin.Daemon.{Session, session_id, with_id}
use krellin.Daemon.Ids.{lookup-insert_other, found_other}
use krellin.Daemon.Races.{Call, looking, making, failed, made, entered, holding, Shared, set_call}

-- A session that is found by its id, and was made for the root.
abbrev Found : Dict Session → Text → Session → Type 0
Found sessions root s = (s.repo_root ≡ root) × (lookup s.id sessions ≡ some s)

-- An id that was given by the counter and is not registered yet.
abbrev Pending : Dict Session → ℕ → Text → Type 0
Pending sessions counter id =
    (k : ℕ) × (id ≡ session_id k) × (k ≤ counter) × (lookup id sessions ≡ none)

abbrev pub Fine : Dict Session → ℕ → Text → Call → Type 0
Fine sessions counter root looking = Unit
Fine sessions counter root making = Unit
Fine sessions counter root failed = Unit
Fine sessions counter root (made s) = (s.repo_root ≡ root) × Pending sessions counter s.id
Fine sessions counter root (entered s) = Found sessions root s
Fine sessions counter root (holding s) = Found sessions root s

abbrev pub id_pending : Call → Option Text
id_pending looking = none
id_pending making = none
id_pending failed = none
id_pending (made s) = some s.id
id_pending (entered s) = none
id_pending (holding s) = none

-- What a repository leads to is found, and was made for it.
abbrev Listed : Dict Session → Text → Option Text → Type 0
Listed sessions root none = Unit
Listed sessions root (some id) =
    (s : Session) × (s.repo_root ≡ root) × (s.id ≡ id) × (lookup id sessions ≡ some s)

-- No two calls are about to register the same id.
abbrev pub Apart : (ℕ → Call) → Type 0
Apart calls =
    (i j : ℕ) (id : Text)
    → i ≢ j
    → id_pending (calls i) ≡ some id
    → id_pending (calls j) ≡ some id
    → ⊥

pub record Sound (roots : ℕ → Text) (r : Shared) : Type 0 where
  pub fine : (i : ℕ) → Fine r.daemon.sessions r.daemon.counter (roots i) (r.calls i)
  pub apart : Apart r.calls
  pub above : (k : ℕ) → r.daemon.counter < k → lookup (session_id k) r.daemon.sessions ≡ none
  pub listed : (root : Text) → Listed r.daemon.sessions root (lookup root r.daemon.by_repo)

-- A property of all calls after one has moved.
pub set_call-all :
    (P : ℕ → Call → Type 0) (i : ℕ) (c : Call) (calls : ℕ → Call)
    → P i c
    → ((j : ℕ) → j ≢ i → P j (calls j))
    → (j : ℕ) → P j (set_call i c calls j)
unfolding set_call
set_call-all P i c calls new old j = elim (Bool-cases (j == i)) [
  | inl e ↦ let same : j ≡ i = ground arith in rw e (rw same new)
  | inr e ↦ rw e (old j (ground arith))
]

not_empty :
    (b : Bool) (o : Option Session) (s : Session)
    → (if not b then o else none) ≡ some s
    → o ≡ some s
not_empty true o s e = cc
not_empty false o s e = e

pub present-Found :
    (sessions : Dict Session) (root : Text) (o : Option Text) (s : Session)
    → Listed sessions root o
    → with_id o sessions ≡ some s
    → Found sessions root s
present-Found sessions root none s listed e = cc
present-Found sessions root (some id) s (t, at, same, found) e =
    let found_s = not_empty (is_empty id) (lookup id sessions) s e in
    let t_is_s : t ≡ s = cc in
    let found_t : lookup t.id sessions ≡ some t = ap (λ k. lookup k sessions) same ∙ found in
    subst (Found sessions root) t_is_s (at, found_t)

pub Fine-more :
    (sessions : Dict Session) (counter : ℕ) (root : Text) (c : Call)
    → Fine sessions counter root c
    → Fine sessions (suc counter) root c
Fine-more sessions counter root looking f = tt
Fine-more sessions counter root making f = tt
Fine-more sessions counter root failed f = tt
Fine-more sessions counter root (made s) (at, (k, same, small, missing)) =
    (at, (k, same, omega arith, missing))
Fine-more sessions counter root (entered s) f = f
Fine-more sessions counter root (holding s) f = f

pub Fine-Pending :
    (sessions : Dict Session) (counter : ℕ) (root id : Text) (c : Call)
    → Fine sessions counter root c
    → id_pending c ≡ some id
    → Pending sessions counter id
Fine-Pending sessions counter root id looking f e = cc
Fine-Pending sessions counter root id making f e = cc
Fine-Pending sessions counter root id failed f e = cc
Fine-Pending sessions counter root id (made s) (at, pending) e =
    let same : s.id ≡ id = cc in subst (Pending sessions counter) same pending
Fine-Pending sessions counter root id (entered s) f e = cc
Fine-Pending sessions counter root id (holding s) f e = cc

-- What holds of the table still does after a session is registered with an id that was not in it.
module _ (sessions : Dict Session) (counter : ℕ) (new : Session)
    (missing : lookup new.id sessions ≡ none) where
  abbrev wider : Dict Session
  wider = insert new.id new sessions

  Found-wider : (root : Text) (s : Session) → Found sessions root s → Found wider root s
  Found-wider root s (at, found) = (
    at,
    lookup-insert_other new.id new sessions s.id (found_other s.id new.id s sessions found missing)
        ∙ found,
  )

  pub Fine-wider :
      (root : Text) (c : Call)
      → id_pending c ≢ some new.id
      → Fine sessions counter root c
      → Fine wider counter root c
  Fine-wider root looking other f = tt
  Fine-wider root making other f = tt
  Fine-wider root failed other f = tt
  Fine-wider root (made s) other (at, (k, same, small, absent)) = (
    at,
    (
      k,
      same,
      small,
      lookup-insert_other new.id new sessions s.id (λ e. other (ap some e)) ∙ absent,
    ),
  )
  Fine-wider root (entered s) other f = Found-wider root s f
  Fine-wider root (holding s) other f = Found-wider root s f

  pub Listed-wider : (root : Text) (o : Option Text) → Listed sessions root o → Listed wider root o
  Listed-wider root none h = tt
  Listed-wider root (some id) (s, at, same, found) = (
    s,
    at,
    same,
    lookup-insert_other new.id new sessions id (found_other id new.id s sessions found missing)
        ∙ found,
  )
