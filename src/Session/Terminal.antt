-- ===== src/Session/Terminal.antt =====
-- The terminal of a session: `ensurePTY` and `resetPTY` of internal/session/session.go, and the action run_command of
-- internal/session/handler.go. The reading of the terminal is left out.
pub mod Panics
use krellin.Prelude.{
  ℕ, zero, suc, Bool, true, false, not, Option, none, some, List, [], ◌∷◌, ◌++◌, if◌then◌else◌,
  length, drop,
}
use krellin.Prelude.Text.{Text, codes, is_empty}
use krellin.Prelude.Result.{Result, ok, err}

-- The state of the capsule, `ptyOnce`, whether `pty` is set, and the errors that were emitted.
pub record Shell (S : Type 0) : Type 0 where
  pub outside : S
  pub once_done : Bool
  pub attached : Bool
  pub pty_errors : List Text

-- How a handler ends; `panicked` is a call on a nil terminal, `unfinished` a loop that has used up its fuel.
pub data Ended : Type 0 where
  succeeded panicked unfinished : Ended
  failed : Text → Ended

-- `AttachPTY` and `Close` of a capsule, and `Write` of its terminal, which tells how many bytes it has taken.
pub record Terminals (S : Type 0) : Type 0 where
  pub attach : S → Option Text × S
  pub close : S → S
  pub write : Text → S → Result Text ℕ × S

module _ {S : Type 0} (terminals : Terminals S) where
  abbrev attached_by : Shell S → Option Text × S → Option Text × Shell S
  attached_by t (none, s) = (none, record t { outside = s; once_done = true; attached = true })
  attached_by t (some e, s) =
      (some e, record t { outside = s; once_done = true; pty_errors = t.pty_errors ++ e ∷ [] })

  -- `ensurePTY`; `none` is the result nil.
  unfoldable pub ensure_pty : Bool → Shell S → Option Text × Shell S
  ensure_pty has_capsule t =
      if not has_capsule
      then (none, t)
      else if t.once_done
      then (none, t)
      else attached_by t (terminals.attach t.outside)

  -- `resetPTY`
  unfoldable pub reset_pty : Shell S → Shell S
  reset_pty t = record t {
    outside = if t.attached then terminals.close t.outside else t.outside;
    once_done = false;
    attached = false;
  }

  -- The loop that writes a command to the terminal.
  unfoldable pub write_data : ℕ → Text → S → Ended × S
  write_data fuel [] s = (succeeded, s)
  write_data zero (c ∷ data_) s = (unfinished, s)
  write_data (suc fuel) (c ∷ data_) s =
      let (answer, after) = terminals.write (c ∷ data_) s in
      elim answer [ err e ↦ (failed e, after) | ok n ↦ write_data fuel (drop n (c ∷ data_)) after ]

  abbrev written_to : Shell S → Ended × S → Ended × Shell S
  written_to t (ended, s) = (ended, record t { outside = s })

  abbrev send : Text → Shell S → Ended × Shell S
  send command t =
      if is_empty command
      then (failed (codes "command required"), t)
      else if not t.attached
      then (panicked, t)
      else written_to t (write_data (length (command ++ 10 ∷ [])) (command ++ 10 ∷ []) t.outside)

  abbrev when_ensured : Text → Option Text × Shell S → Ended × Shell S
  when_ensured command (some e, t) = (failed e, t)
  when_ensured command (none, t) = send command t

  -- The case of run_command in `Handle`.
  unfoldable pub run_command : Bool → Text → Shell S → Ended × Shell S
  run_command has_capsule command t =
      if t.attached then send command t else when_ensured command (ensure_pty has_capsule t)
