-- ===== src/Daemon/Races.antt =====
-- Calls of `EnsureSessionForRepo` that overlap (internal/daemon/ensure.go), with a factory that leaves the ids to the
-- daemon. Call `i` asks for the root `roots i`; every step is one taking of the lock, or what stands between two.
pub mod Sound
pub mod Known
use krellin.Prelude.{ℕ, List, [], Bool, Option, none, some, ◌≡◌, ◌==◌, if◌then◌else◌}
use krellin.Prelude.Text.{Text}
use krellin.Daemon.{Session, Daemon, register, launch, numbered, present}

-- Where a call stands: before the tables are read, where nothing was found, with a session that has its id,
-- with one that is registered, with one that is started as well, and after an error of the factory.
pub data Call : Type 0 where
  looking making failed : Call
  made entered holding : Session → Call

pub record Shared : Type 0 where
  pub daemon : Daemon
  pub calls : ℕ → Call

unfoldable pub set_call : ℕ → Call → (ℕ → Call) → ℕ → Call
set_call i c calls j = if j == i then c else calls j

abbrev pub moved : Shared → ℕ → Call → Daemon → Shared
moved r i c d = record { daemon = d; calls = set_call i c r.calls }

pub data Step (roots : ℕ → Text) : Shared → Shared → Type 0 where
  find :
      (r : Shared) (i : ℕ) (s : Session)
      → r.calls i ≡ looking
      → present (roots i) r.daemon ≡ some s
      → Step roots r (moved r i (holding s) r.daemon)
  miss :
      (r : Shared) (i : ℕ)
      → r.calls i ≡ looking
      → present (roots i) r.daemon ≡ none
      → Step roots r (moved r i making r.daemon)
  fail : (r : Shared) (i : ℕ) → r.calls i ≡ making → Step roots r (moved r i failed r.daemon)
  make :
      (r : Shared) (i : ℕ)
      → r.calls i ≡ making
      → Step roots r
          (moved r i (made (numbered (roots i) [] r.daemon).0) (numbered (roots i) [] r.daemon).1)
  enter :
      (r : Shared) (i : ℕ) (s : Session)
      → r.calls i ≡ made s
      → Step roots r (moved r i (entered s) (register (roots i) s r.daemon))
  begin :
      (r : Shared) (i : ℕ) (s : Session)
      → r.calls i ≡ entered s
      → Step roots r (moved r i (holding s) (launch s r.daemon))

pub data Steps (roots : ℕ → Text) (r : Shared) : Shared → Type 0 where
  here : Steps roots r r
  next : {s t : Shared} → Steps roots r s → Step roots s t → Steps roots r t
