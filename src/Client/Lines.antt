-- ===== src/Client/Lines.antt =====
-- What is sent for a line: `sendActionCmd`, `runLocalCmd` and `sendAgentPromptCmd` of internal/client/tui_model.go, and
-- `Run` of internal/client/input.go. A request stands for the action that carries it.
use krellin.Prelude.{
  ◌≡◌, refl, true, false, ◌&&◌, Option, none, some, List, [], ◌∷◌, ◌++◌, arith, if◌then◌else◌,
  Bool-cases, inl, inr, append-nil,
}
use krellin.Prelude.Text.{Text, codes, is_empty, has_prefix, trim_prefix, trim_space}
use krellin.Client.Widgets.{Widgets}
use krellin.Client.Model.{Model, Effect, send_action, run_local, send_agent_prompt}
use krellin.Client.Timeline.{append_terminal_line}
use krellin.Client.Commands.{is_local_git_command, dispatch_input}

-- A command runs in the capsule's /workspace, a local one in a shell of the user's own machine.
pub data Request : Type 0 where
  list_agents : Request
  run_command agent_prompt local : Text → Request

abbrev pub bang : Text
bang = codes "!"

-- The command of a line that may begin with an exclamation mark.
abbrev pub command_of : Text → Text
command_of line = if has_prefix line bang then trim_space (trim_prefix line bang) else line

-- What the commands of the interface for an entered line send.
unfoldable pub requests_of : Effect → List Request
requests_of (send_action line) =
    if has_prefix line bang && is_empty (command_of line)
    then []
    else run_command (command_of line) ∷ []
requests_of (run_local line) =
    if is_empty (trim_space (trim_prefix line bang))
    then []
    else local (trim_space (trim_prefix line bang)) ∷ []
requests_of (send_agent_prompt text) = agent_prompt text ∷ []
requests_of e = []

-- What the command of `sendActionCmd` does to the model before it sends.
unfoldable pub running : (w : Widgets) → Text → Model w → Model w
running w line m =
    let shown =
      append_terminal_line w (0xe2 ∷ 0x97 ∷ 0x8c ∷ codes " Running: " ++ command_of line) m in
    if has_prefix line bang && is_empty (command_of line)
    then m
    else record shown { last_cmd_echo = command_of line; suppress_echo = true }

-- What one line that is not empty leads to in `Run`.
unfoldable pub line_requests : Text → List Request
line_requests line =
    if has_prefix line (codes "/agents")
    then list_agents ∷ []
    else if has_prefix line bang
    then (if is_local_git_command line
        then (if is_empty (trim_space (trim_prefix line bang))
            then []
            else local (trim_space (trim_prefix line bang)) ∷ [])
        else if is_empty (trim_space (trim_prefix line bang))
        then []
        else run_command (trim_space (trim_prefix line bang)) ∷ [])
    else if has_prefix line (codes "/")
    then []
    else agent_prompt line ∷ []

module _ {S : Type 0} (serve : Request → S → Option Text × S) where
  unfoldable serve_all : List Request → S → Option Text × S
  serve_all [] s = (none, s)
  serve_all (request ∷ requests) s =
      let (answer, after) = serve request s in
      elim answer [ none ↦ serve_all requests after | some e ↦ (some e, after) ]

  -- `Run`, over the lines of the input; the echo of a line is left out.
  unfoldable run_input : List Text → S → Option Text × S
  run_input [] s = (none, s)
  run_input (text ∷ lines) s =
      let line = trim_space text in
      let (answer, after) = serve_all (if is_empty line then [] else line_requests line) s in
      elim answer [ none ↦ run_input lines after | some e ↦ (some e, after) ]

abbrev pub all_requests : List Effect → List Request
all_requests [] = []
all_requests (e ∷ effects) = requests_of e ++ all_requests effects

agents_slash :
    (line : Text) → has_prefix line (codes "/") ≡ false → has_prefix line (codes "/agents") ≡ false
unfolding has_prefix
agents_slash [] e = refl
agents_slash (c ∷ line) e = ground arith

-- For a line that begins with no slash `dispatchInputCmd` of the full interface sends what the plain interface sends. The
-- full interface handles the line `clear` by itself, before it comes to `dispatchInputCmd`.
pub dispatch_input-line_requests :
    (line : Text)
    → has_prefix line (codes "/") ≡ false
    → all_requests (dispatch_input line) ≡ line_requests line
unfolding dispatch_input requests_of line_requests
dispatch_input-line_requests line plain =
    rw (plain, agents_slash line plain)
      (elim (Bool-cases (has_prefix line bang)) [
        | inl e ↦ rw e (elim (Bool-cases (is_local_git_command line)) [
          | inl f ↦ rw f (append-nil _)
          | inr f ↦ rw (f, e) (append-nil _)
        ])
        | inr e ↦ rw e
      ])
