-- ===== src/Client/Widgets.antt =====
-- The packages that internal/client draws with: an input line and a scrolled view as it uses them.
use krellin.Prelude.{ℕ, Bool}
use krellin.Prelude.Text.{Text}

-- Keys by the names that the source compares them with.
pub data Key : Type 0 where
  pgup ctrl_u pgdown ctrl_d shift_up shift_down home to_end esc tab down shift_tab up : Key
  ctrl_s enter return_key space letter_a letter_e letter_d ctrl_c : Key
  typed : Text → Key

-- `strip` is ansi.Strip, `lower` strings.ToLower, `label` the coloured mark of a chat line, `painted` the coloured
-- lines of a diff, and `waiting` the line that stands for a pending answer, by its frame.
pub record Widgets : Type 1 where
  pub Input : Type 0
  pub new_input : Text → Input
  pub value : Input → Text
  pub position : Input → ℕ
  pub set_value : Text → Input → Input
  pub cursor_start : Input → Input
  pub cursor_end : Input → Input
  pub reset : Input → Input
  pub focus : Input → Input
  pub blur : Input → Input
  pub press : Key → Input → Input
  pub tick : Input → Input
  pub widen : ℕ → Input → Input
  pub View : Type 0
  pub view_width : View → ℕ
  pub view_height : View → ℕ
  pub at_bottom : View → Bool
  pub scroll_up : ℕ → View → View
  pub scroll_down : ℕ → View → View
  pub goto_top : View → View
  pub goto_bottom : View → View
  pub wheel : View → View
  pub set_content : Text → View → View
  pub set_size : ℕ → ℕ → View → View
  pub strip : Text → Text
  pub lower : Text → Text
  pub label : Text → Text
  pub painted : Text → Text
  pub waiting : ℕ → Text
