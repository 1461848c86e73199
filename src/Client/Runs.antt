-- ===== src/Client/Runs.antt =====
-- Runs of the interface of internal/client/tui_model.go: messages, and the commands that it has asked for. The command
-- of `sendActionCmd` writes to the model; it is taken to run between two messages.
use krellin.Prelude.{◌||◌, List, [], ◌∷◌, ◌++◌, arith, if_both, ◌==◌}
use krellin.Prelude.Text.{Text}
use krellin.Prelude.Result.{Result, ok, err}
use krellin.Client.Widgets.{Widgets}
use krellin.Client.Model.{Model, Outcome, done, panics, new_model}
use krellin.Client.Form.Kept.{in_field-IsValid}
use krellin.Client.Incoming.Kept.{apply_event-IsValid}
use krellin.Client.Commands.Kept.{running-IsValid}
use krellin.Client.Lines.{running}
use krellin.Client.Keys.{
  Msg, window_size, key, mouse, event, failure, paste, local_result, connected, disconnected,
  think_ticked, mouse_temp_ended, other_msg, resize, reported, in_form, update,
}
use krellin.Client.Keys.Safe.{on_key-Fine}
use krellin.Client.Valid.{
  IsValid, Fine, new_model-IsValid, update_output-IsValid, append_terminal-IsValid,
  append_command_output-IsValid,
}

pub data Turn : Type 0 where
  message : Msg → Turn
  command_runs : Text → Turn

module _ (w : Widgets) where
  pub step : Turn → Model w → Outcome w
  step (message msg) m = update w msg m
  step (command_runs line) m = done (running w line m) []

  -- A run, with all the effects in their order.
  abbrev onward : (Model w → Outcome w) → Outcome w → Outcome w
  onward rest panics = panics
  onward rest (done m effects) = elim (rest m) [
    | panics ↦ panics
    | done last more ↦ done last (effects ++ more)
  ]

  unfoldable pub run : List Turn → Model w → Outcome w
  run [] m = done m []
  run (turn ∷ turns) m = onward (run turns) (step turn m)

  resize-IsValid : (m : Model w) → IsValid m → IsValid (resize w m)
  unfolding resize
  resize-IsValid m v =
      if_both IsValid (m.width == 0 || m.height == 0) m _ (λ e. v)
        (λ e. update_output-IsValid w _ (ground arith))

  reported-IsValid : (r : Result Text Text) (m : Model w) → IsValid m → IsValid (reported w r m)
  reported-IsValid (ok output) m v = append_command_output-IsValid w _ m v
  reported-IsValid (err e) m v = append_command_output-IsValid w _ m v

  update-Fine : (msg : Msg) (m : Model w) → IsValid m → Fine (update w msg m)
  unfolding update
  update-Fine (window_size width height) m v = resize-IsValid _ (ground arith)
  update-Fine (key now k) m v = on_key-Fine w now k m v
  update-Fine (mouse shift) m v = ground arith
  update-Fine (event time incoming) m v = apply_event-IsValid w time incoming _ (ground arith)
  update-Fine (failure e) m v = append_terminal-IsValid w _ m v
  update-Fine (paste text) m v =
      if_both Fine (in_form w m) _ _ (λ e. in_field-IsValid w _ m v)
        (λ e. update_output-IsValid w _ (ground arith))
  update-Fine (local_result r) m v = reported-IsValid r m v
  update-Fine connected m v = ground arith
  update-Fine disconnected m v = append_terminal-IsValid w _ _ (ground arith)
  update-Fine think_ticked m v =
      if_both Fine m.thinking _ _ (λ e. update_output-IsValid w _ (ground arith)) (λ e. v)
  update-Fine mouse_temp_ended m v = ground arith
  update-Fine other_msg m v = ground arith

  step-Fine : (turn : Turn) (m : Model w) → IsValid m → Fine (step turn m)
  unfolding step
  step-Fine (message msg) m v = update-Fine msg m v
  step-Fine (command_runs line) m v = running-IsValid w line m v

  onward-Fine :
      (rest : Model w → Outcome w) (o : Outcome w)
      → Fine o
      → ((m : Model w) → IsValid m → Fine (rest m))
      → Fine (onward rest o)
  onward-Fine rest panics v fine = elim v [ ]
  onward-Fine rest (done m effects) v fine = joined (rest m) (fine m v)
    where
      joined :
          (o : Outcome w)
          → Fine o
          → Fine (elim o as (λ _. Outcome w) [
            | panics ↦ panics
            | done last more ↦ done last (effects ++ more)
          ])
      joined (done last more) k = k
      joined panics k = elim k [ ]

  run-Fine : (turns : List Turn) (m : Model w) → IsValid m → Fine (run turns m)
  unfolding run
  run-Fine [] m v = v
  run-Fine (turn ∷ turns) m v =
      onward-Fine (run turns) (step turn m) (step-Fine turn m v) (run-Fine turns)

  -- From a new model, whatever messages come and whatever commands run between them, no index is out of range:
  -- the selection, the recalled line and the field in focus are there, a form has its six fields; the terminal
  -- holds at most a thousand lines (and one empty line), the log at most fifty, and the interface shows that it
  -- waits exactly while an agent's answer is pending.
  pub run-new_model :
      (input : w.Input) (view : w.View) (turns : List Turn)
      → Fine (run turns (new_model w input view))
  run-new_model input view turns = run-Fine turns _ (new_model-IsValid w input view)
