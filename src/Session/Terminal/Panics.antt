-- ===== src/Session/Terminal/Panics.antt =====
-- run_command of internal/session/handler.go: when it ends, and when it panics.
use krellin.Prelude.{
  ℕ, zero, suc, ◌≤◌, ◌≡◌, ◌≢◌, ◌↔◌, refl, ap, ◌∙◌, ◌⊎◌, inl, inr, Bool, true, false, not, Option,
  none, some, [], ◌∷◌, ◌++◌, arith, length, drop, length-drop, if_both,
}
use krellin.Prelude.Text.{Text, is_empty}
use krellin.Prelude.Result.{ok, Result-cases}
use krellin.Session.Terminal.{
  Shell, Ended, panicked, unfinished, Terminals, attached_by, ensure_pty, write_data, send,
  when_ensured, run_command,
}

-- The terminal is nil, and attaching it has been tried already or there is no capsule.
abbrev pub Missing : {S : Type 0} → Bool → Shell S → Type 0
Missing has_capsule t = (t.attached ≡ false) × ((has_capsule ≡ false) ⊎ (t.once_done ≡ true))

module _ {S : Type 0} (terminals : Terminals S)
    (moves : (c : ℕ) (text : Text) (s : S) (n : ℕ)
      → (terminals.write (c ∷ text) s).0 ≡ ok n
      → 1 ≤ n) where
  write_data-finished :
      (fuel : ℕ) (text : Text) (s : S)
      → length text ≤ fuel
      → ((write_data terminals fuel text s).0 ≢ unfinished)
        × ((write_data terminals fuel text s).0 ≢ panicked)
  unfolding write_data
  write_data-finished fuel [] s h = (λ k. cc, λ k. cc)
  write_data-finished zero (c ∷ text) s h = absurd (omega arith)
  write_data-finished (suc fuel) (c ∷ text) s h =
      elim (Result-cases (terminals.write (c ∷ text) s).0) [
        | inl (n, e) ↦
            let one = moves c text s n e in
            rw (e, write_data)
              (write_data-finished fuel (drop n (c ∷ text)) (terminals.write (c ∷ text) s).1
                (omega (arith, length-drop n (c ∷ text), one, h)))
        | inr (x, e) ↦ rw (e, write_data) (λ k. cc, λ k. cc)
      ]

  send-panics :
      (command : Text) (t : Shell S)
      → (send terminals command t).0 ≡ panicked
      → (is_empty command ≡ false) × (t.attached ≡ false)
  send-panics command t =
      if_both
        (λ (r : Ended × Shell S).
          r.0 ≡ panicked → (is_empty command ≡ false) × (t.attached ≡ false))
        (is_empty command) _ _ (λ e h. cc)
        (λ e.
          if_both
            (λ (r : Ended × Shell S).
              r.0 ≡ panicked → (is_empty command ≡ false) × (t.attached ≡ false))
            (not t.attached) _ _ (λ f h. (e, ground arith))
            (λ f h. absurd (
              (write_data-finished (length (command ++ 10 ∷ [])) (command ++ 10 ∷ []) t.outside
                  (omega arith)).1
                h)))

  send_panicked :
      (command : Text) (t : Shell S)
      → is_empty command ≡ false
      → t.attached ≡ false
      → (send terminals command t).0 ≡ panicked
  send_panicked command t e f =
      if_both (λ (r : Ended × Shell S). r.0 ≡ panicked) (is_empty command) _ _ (λ k. cc)
        (λ _.
          if_both (λ (r : Ended × Shell S). r.0 ≡ panicked) (not t.attached) _ _ (λ _. refl)
            (λ k. absurd (ground arith)))

  attached-panics :
      (command : Text) (t : Shell S) (answer : Option Text × S)
      → (when_ensured terminals command (attached_by terminals t answer)).0 ≡ panicked
      → t.attached ≡ true
  attached-panics command t (none, s) h =
      cc ((send-panics command (attached_by terminals t (none, s)).1 h).1)
  attached-panics command t (some x, s) h = cc

  ensured-panics :
      (has_capsule : Bool) (command : Text) (t : Shell S)
      → t.attached ≡ false
      → (when_ensured terminals command (ensure_pty terminals has_capsule t)).0 ≡ panicked
      → (is_empty command ≡ false) × Missing has_capsule t
  unfolding ensure_pty
  ensured-panics has_capsule command t off =
      if_both
        (λ (r : Option Text × Shell S).
          (when_ensured terminals command r).0 ≡ panicked
          → (is_empty command ≡ false) × Missing has_capsule t)
        (not has_capsule) _ _ (λ e h. ((send-panics command t h).0, (off, inl (ground arith))))
        (λ e.
          if_both
            (λ (r : Option Text × Shell S).
              (when_ensured terminals command r).0 ≡ panicked
              → (is_empty command ≡ false) × Missing has_capsule t)
            t.once_done _ _ (λ f h. ((send-panics command t h).0, (off, inr f)))
            (λ f h. cc (attached-panics command t (terminals.attach t.outside) h)))

  ensured :
      (has_capsule : Bool) (t : Shell S)
      → (has_capsule ≡ false) ⊎ (t.once_done ≡ true)
      → ensure_pty terminals has_capsule t ≡ (none, t)
  unfolding ensure_pty
  ensured has_capsule t (inl none_there) =
      if_both (λ (r : Option Text × Shell S). r ≡ (none, t)) (not has_capsule) _ _ (λ _. refl)
        (λ e. absurd (ground arith))
  ensured has_capsule t (inr spent) =
      if_both (λ (r : Option Text × Shell S). r ≡ (none, t)) (not has_capsule) _ _ (λ _. refl)
        (λ _.
          if_both (λ (r : Option Text × Shell S). r ≡ (none, t)) t.once_done _ _ (λ _. refl)
            (λ e. absurd (ground arith)))

  -- Where a terminal takes a byte at least with each write, run_command with a command that is not empty calls a nil terminal
  -- exactly when none is attached and either the session has no capsule or an attachment has failed since the last reset.
  pub run_command-panics :
      (has_capsule : Bool) (command : Text) (t : Shell S)
      → is_empty command ≡ false
      → ((run_command terminals has_capsule command t).0 ≡ panicked) ↔ Missing has_capsule t
  unfolding run_command
  run_command-panics has_capsule command t some_text = (
    if_both (λ (r : Ended × Shell S). r.0 ≡ panicked → Missing has_capsule t) t.attached _ _
        (λ on h. cc ((send-panics command t h).1))
        (λ off h. (ensured-panics has_capsule command t off h).1),
    λ (off, why).
        if_both (λ (r : Ended × Shell S). r.0 ≡ panicked) t.attached _ _ (λ on. cc)
          (λ _.
            ap (λ r. (when_ensured terminals command r).0) (ensured has_capsule t why)
            ∙ send_panicked command t some_text off),
  )

  send-finished : (command : Text) (t : Shell S) → (send terminals command t).0 ≢ unfinished
  send-finished command t =
      if_both (λ (r : Ended × Shell S). r.0 ≢ unfinished) (is_empty command) _ _ (λ e h. cc)
        (λ _.
          if_both (λ (r : Ended × Shell S). r.0 ≢ unfinished) (not t.attached) _ _ (λ e h. cc)
            (λ _.
              (write_data-finished (length (command ++ 10 ∷ [])) (command ++ 10 ∷ []) t.outside
                (omega arith)).0))

  ensured-finished :
      (command : Text) (r : Option Text × Shell S)
      → (when_ensured terminals command r).0 ≢ unfinished
  ensured-finished command (none, t) h = send-finished command t h
  ensured-finished command (some e, t) h = cc

  -- Where a terminal takes a byte at least with each write, the loop that writes the command comes to an end.
  run_command-finished :
      (has_capsule : Bool) (command : Text) (t : Shell S)
      → (run_command terminals has_capsule command t).0 ≢ unfinished
  unfolding run_command
  run_command-finished has_capsule command t =
      if_both (λ (r : Ended × Shell S). r.0 ≢ unfinished) t.attached _ _
        (λ _. send-finished command t)
        (λ _. ensured-finished command (ensure_pty terminals has_capsule t))
