-- ===== src/Client/Model.antt =====
-- The model of internal/client/tui_model.go and what its `Update` returns.
use krellin.Prelude.{ℕ, Bool, true, false, Option, none, List, []}
use krellin.Prelude.Text.{Text}
use krellin.Agents.{AddPayload}
use krellin.Client.Widgets.{Widgets}

-- `protocol.AgentProviderInfo`
pub record Info : Type 0 where
  pub name : Text
  pub kind : Text
  pub model : Text
  pub base_url : Text
  pub api_key_env : Text
  pub enabled : Bool
  pub has_api_key : Bool
  pub status : Text

pub data Mode : Type 0 where
  unset list_mode add_mode : Mode

pub data AddMode : Type 0 where
  adding editing : AddMode

-- `tuiModel`, without its client, its ids and the view of the input line. `hist_idx` is `none` for -1, `last_esc`
-- is `none` for the zero time.
pub record Model (w : Widgets) : Type 0 where
  pub width : ℕ
  pub height : ℕ
  pub terminal : List Text
  pub input : w.Input
  pub output_view : w.View
  pub ready : Bool
  pub show_logo : Bool
  pub history : List Text
  pub hist_idx : Option ℕ
  pub last_esc : Option ℕ
  pub action_log : List Text
  pub last_diff : Text
  pub agents_open : Bool
  pub agents_loading : Bool
  pub agents_providers : List Info
  pub agents_active : Text
  pub agents_selected : ℕ
  pub agents_mode : Mode
  pub add_fields : List w.Input
  pub add_enabled : Bool
  pub add_field_idx : ℕ
  pub add_err : Text
  pub add_kind : AddMode
  pub delete_pending : Bool
  pub delete_name : Text
  pub thinking : Bool
  pub pending_agent : Bool
  pub think_frame : ℕ
  pub mouse_enabled : Bool
  pub auto_scroll : Bool
  pub mouse_temp : Bool
  pub indent_terminal : Bool
  pub last_cmd_echo : Text
  pub suppress_echo : Bool

-- The commands that `Update` returns; a batch is a list, and nil the empty one. Those of the widgets are left out.
pub data Effect : Type 0 where
  quit think_tick mouse_temp_reset send_agents_list : Effect
  send_action run_local send_agent_prompt send_set_active send_delete : Text → Effect
  send_toggle : Text → Bool → Effect
  send_add : AddPayload → Effect

-- What a call of `Update` comes to; `panics` is an index out of range.
pub data Outcome (w : Widgets) : Type 0 where
  done : Model w → List Effect → Outcome w
  panics : Outcome w

-- `newTUIModel`, from the new input line and the new view
unfoldable pub new_model : (w : Widgets) → w.Input → w.View → Model w
new_model w input view = record {
  width = 0;
  height = 0;
  terminal = [];
  input = input;
  output_view = view;
  ready = false;
  show_logo = true;
  history = [];
  hist_idx = none;
  last_esc = none;
  action_log = [];
  last_diff = [];
  agents_open = false;
  agents_loading = false;
  agents_providers = [];
  agents_active = [];
  agents_selected = 0;
  agents_mode = unset;
  add_fields = [];
  add_enabled = false;
  add_field_idx = 0;
  add_err = [];
  add_kind = adding;
  delete_pending = false;
  delete_name = [];
  thinking = false;
  pending_agent = false;
  think_frame = 0;
  mouse_enabled = true;
  auto_scroll = true;
  mouse_temp = false;
  indent_terminal = false;
  last_cmd_echo = [];
  suppress_echo = false;
}
