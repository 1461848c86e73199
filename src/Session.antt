-- ===== src/Session.antt =====
-- The parts of a session that agents drive: internal/session/agent_tools.go, context.go and plan.go.
pub mod Prompts
pub mod Context
pub mod Plan
pub mod Rounds
pub mod Planned
pub mod Decoding
pub mod Answers
pub mod Messages
pub mod Toolbox
pub mod Events
pub mod Terminal
pub mod Streaming
pub mod Agent
pub mod Actions
pub mod Handler
pub mod Start
use krellin.Prelude.Int.{ℤ}
use krellin.Prelude.{ℕ, List}
use krellin.Prelude.Text.{Text}

-- The arguments are the JSON text as it came.
pub record ToolCall : Type 0 where
  pub tool : Text
  pub args : Text

-- The exit code is -1 where a signal ended the process.
pub record ToolResult : Type 0 where
  pub tool : Text
  pub args : Text
  pub output : Text
  pub exit_code : ℤ
  pub error : Text
