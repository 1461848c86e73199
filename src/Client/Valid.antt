-- ===== src/Client/Valid.antt =====
-- What the model of internal/client/tui_model.go keeps to: its numbers point into its lists, and its lists are bounded.
use krellin.Prelude.{
  ℕ, ◌-◌, ◌≤◌, ◌<◌, ◌≡◌, refl, ◌⊎◌, inl, inr, Option, none, some, List, [], ◌∷◌, ◌++◌, arith,
  length, length-append, length-drop, if_both, Bool-cases, ◌==◌, ltb,
}
use krellin.Prelude.Text.{Text, is_empty}
use krellin.Client.Controls.{clamp_lines, length-clamp_lines}
use krellin.Client.Widgets.{Widgets}
use krellin.Client.Model.{Model, Mode, unset, list_mode, add_mode, Outcome, done, panics, new_model}
use krellin.Client.Timeline.{
  last_line, update_output, append_terminal, append_terminal_line, parted, append_chat,
  append_command_output, append_action_log,
}

-- At most a thousand lines, and one empty line more where a blank message came.
abbrev pub Bounded : List Text → Type 0
Bounded lines = (length lines ≤ 1000) ⊎ ((length lines ≡ 1001) × (last_line lines ≡ []))

abbrev pub InHistory : Option ℕ → List Text → Type 0
InHistory none history = Unit {0}
InHistory (some i) history = i < length history

abbrev pub HasFields : {A : Type 0} → Mode → List A → Type 0
HasFields unset fields = Unit {0}
HasFields list_mode fields = Unit {0}
HasFields add_mode fields = length fields ≡ 6

pub record IsValid {w : Widgets} (m : Model w) : Type 0 where
  pub selected : m.agents_selected ≤ length m.agents_providers - 1
  pub recalled : InHistory m.hist_idx m.history
  pub formed : HasFields m.agents_mode m.add_fields
  pub placed : m.add_field_idx ≤ length m.add_fields
  pub bounded : Bounded m.terminal
  pub logged : length m.action_log ≤ 50
  pub waiting : m.thinking ≡ m.pending_agent

module _ (w : Widgets) where
  pub new_model-IsValid : (input : w.Input) (view : w.View) → IsValid (new_model w input view)
  unfolding new_model
  new_model-IsValid input view = record {
    selected = omega arith;
    recalled = tt;
    formed = tt;
    placed = omega arith;
    bounded = inl (omega arith);
    logged = omega arith;
    waiting = refl;
  }

  -- Another view.
  redrawn : (m : Model w) (view : w.View) → IsValid m → IsValid (record m { output_view = view })
  redrawn m view v = record {
    selected = v.selected;
    recalled = v.recalled;
    formed = v.formed;
    placed = v.placed;
    bounded = v.bounded;
    logged = v.logged;
    waiting = v.waiting;
  }

  pub update_output-IsValid : (m : Model w) → IsValid m → IsValid (update_output w m)
  unfolding update_output
  update_output-IsValid m v =
      if_both IsValid (w.view_width m.output_view == 0) m _ (λ e. v) (λ e. redrawn m _ v)

  -- The lines replaced.
  relined :
      (m : Model w) (lines : List Text)
      → IsValid m
      → Bounded lines
      → IsValid (record m { terminal = lines })
  relined m lines v b = record {
    selected = v.selected;
    recalled = v.recalled;
    formed = v.formed;
    placed = v.placed;
    bounded = b;
    logged = v.logged;
    waiting = v.waiting;
  }

  clamped :
      (m : Model w) (lines : List Text)
      → IsValid m
      → IsValid (update_output w (record m { terminal = clamp_lines lines 1000 }))
  clamped m lines v = update_output-IsValid _ (relined m _ v (inl (length-clamp_lines lines 1000)))

  pub append_terminal-IsValid :
      (text : Text) (m : Model w) → IsValid m → IsValid (append_terminal w text m)
  unfolding append_terminal
  append_terminal-IsValid text m v =
      if_both IsValid (is_empty text) m _ (λ e. v) (λ e. clamped m _ v)

  pub append_terminal_line-IsValid :
      (line : Text) (m : Model w) → IsValid m → IsValid (append_terminal_line w line m)
  unfolding append_terminal_line
  append_terminal_line-IsValid line m v =
      if_both IsValid (is_empty line) m _ (λ e. v) (λ e. clamped m _ v)

  last_line-append : (lines : List Text) (line : Text) → last_line (lines ++ line ∷ []) ≡ line
  unfolding last_line
  last_line-append [] line = refl
  last_line-append (x ∷ []) line = refl
  last_line-append (x ∷ y ∷ lines) line = last_line-append (y ∷ lines) line

  longer : (lines : List Text) → length lines ≤ 1000 → Bounded (lines ++ [] ∷ [])
  longer lines h = elim (Bool-cases (ltb (length lines) 1000)) [
    | inl e ↦ inl (ground (arith, length-append lines ([] ∷ [])))
    | inr e ↦ inr (ground (arith, length-append lines ([] ∷ [])), last_line-append lines [])
  ]

  parted-Bounded : (lines : List Text) → Bounded lines → Bounded (parted w lines)
  unfolding parted is_empty
  parted-Bounded lines (inl h) =
      if_both Bounded (is_empty (last_line lines)) lines _ (λ e. inl h) (λ e. longer lines h)
  parted-Bounded lines (inr (e, h)) = rw (h, is_empty) (inr (e, h))

  pub append_command_output-IsValid :
      (text : Text) (m : Model w) → IsValid m → IsValid (append_command_output w text m)
  unfolding append_command_output
  append_command_output-IsValid text m v = clamped m _ v

  pub append_chat-IsValid :
      (role content : Text) (m : Model w) → IsValid m → IsValid (append_chat w role content m)
  unfolding append_chat
  append_chat-IsValid role content m v =
      append_terminal_line-IsValid _ _ (relined m _ v (parted-Bounded m.terminal v.bounded))

  pub append_action_log-IsValid :
      (entry : Text) (m : Model w) → IsValid m → IsValid (append_action_log w entry m)
  unfolding append_action_log
  append_action_log-IsValid entry m v = record {
    selected = v.selected;
    recalled = v.recalled;
    formed = v.formed;
    placed = v.placed;
    bounded = v.bounded;
    logged = ground (
      arith,
      length-append m.action_log (entry ∷ []),
      length-drop (length (m.action_log ++ entry ∷ []) - 50) (m.action_log ++ entry ∷ []),
    );
    waiting = v.waiting;
  }

-- A call that does not panic leaves a valid model.
abbrev pub Fine : {w : Widgets} → Outcome w → Type 0
Fine (done m effects) = IsValid m
Fine panics = ⊥
