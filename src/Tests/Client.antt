-- ===== src/Tests/Client.antt =====
-- The terminal interface on concrete keys and lines, with widgets that keep a text and a number.
use krellin.Prelude.{ℕ, ◌+◌, ◌-◌, ◌≡◌, refl, inl, true, false, none, some, List, [], ◌∷◌, length}
use krellin.Prelude.Text.{Text, codes, has_prefix, text_eq}
use krellin.Client.Widgets.{Widgets, enter, letter_d}
use krellin.Client.Model.{Model, Info, new_model, list_mode, done, send_delete}
use krellin.Client.Commands.{dispatch_input}
use krellin.Client.Lines.{all_requests, line_requests, dispatch_input-line_requests}
use krellin.Client.Incoming.{agents_list}
use krellin.Client.Keys.{key, paste, event}
use krellin.Client.Window.{list_key, delete_key}
use krellin.Client.Valid.{Fine}
use krellin.Client.Keys.Deletes.Twice.{Selected, Asked, start, press, list_key-Twice}
use krellin.Client.Runs.{Turn, message, run, run-new_model}

-- A view is the number of the line at its top, ten lines high.
abbrev plain : Widgets
plain = record {
  Input = Text;
  new_input = λ placeholder. [];
  value = λ input. input;
  position = λ input. length input;
  set_value = λ text input. text;
  cursor_start = λ input. input;
  cursor_end = λ input. input;
  reset = λ input. [];
  focus = λ input. input;
  blur = λ input. input;
  press = λ k input. input;
  tick = λ input. input;
  widen = λ width input. input;
  View = ℕ;
  view_width = λ view. 80;
  view_height = λ view. 10;
  at_bottom = λ view. true;
  scroll_up = λ n view. view - n;
  scroll_down = λ n view. view + n;
  goto_top = λ view. 0;
  goto_bottom = λ view. view;
  wheel = λ view. view;
  set_content = λ text view. view;
  set_size = λ width height view. view;
  strip = λ text. text;
  lower = λ text. text;
  label = λ role. codes "*";
  painted = λ text. text;
  waiting = λ frame. codes "...";
}

abbrev provider : Info
provider = record {
  name = codes "p";
  kind = codes "openai";
  model = codes "m";
  base_url = [];
  api_key_env = codes "K";
  enabled = true;
  has_api_key = true;
  status = [];
}

-- The window is opened, the list comes, and d is pressed twice.
abbrev deleting : List Turn
deleting =
    message (paste (codes "/agents"))
    ∷ message (key 0 enter)
    ∷ message (event none (agents_list (some (provider ∷ [], codes "p"))))
    ∷ message (key 1 letter_d)
    ∷ message (key 2 letter_d)
    ∷ []

run-new_model_example : Fine (run plain deleting (new_model plain [] 0))
run-new_model_example = run-new_model plain [] 0 deleting

abbrev listing : Model plain
listing = record (new_model plain [] 0) {
  agents_open = true;
  agents_mode = list_mode;
  agents_providers = provider ∷ [];
}

abbrev asked : Model plain
asked = record listing { delete_pending = true; delete_name = codes "p" }

abbrev not_asked : Model plain
not_asked = record asked { delete_pending = false; delete_name = [] }

first_d : list_key plain letter_d listing ≡ some (done asked [])
unfolding list_key delete_key new_model
first_d = refl

second_d : list_key plain letter_d asked ≡ some (done not_asked (send_delete (codes "p") ∷ []))
unfolding list_key delete_key text_eq new_model
second_d = refl

list_key-Twice_example :
    (letter_d ≡ letter_d)
    × Selected plain (codes "p") asked
    × Asked plain listing (codes "p") (letter_d ∷ []) asked
unfolding new_model
list_key-Twice_example =
    list_key-Twice plain listing refl (press start letter_d asked [] first_d) letter_d not_asked
      (send_delete (codes "p") ∷ []) (codes "p") second_d (inl refl)

dispatch_input-line_requests_example :
    all_requests (dispatch_input (codes "!git log")) ≡ line_requests (codes "!git log")
dispatch_input-line_requests_example =
    dispatch_input-line_requests (codes "!git log") (unfold has_prefix in refl)
