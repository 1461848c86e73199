-- ===== src/Client/Controls.antt =====
-- internal/client/controls.go
use krellin.Prelude.{ℕ, ◌-◌, ◌≤◌, List, arith, leb, if◌then◌else◌, length, drop, length-drop}

data ViewMode : Type 0 where
  view_all view_terminal view_diff : ViewMode

-- `toggleMode`
unfoldable toggle_mode : ViewMode → ViewMode
toggle_mode view_all = view_terminal
toggle_mode view_terminal = view_diff
toggle_mode view_diff = view_all

-- `clampLines`
unfoldable pub clamp_lines {ℓ} : {A : Type ℓ} → List A → ℕ → List A
clamp_lines lines max = if leb (length lines) max then lines else drop (length lines - max) lines

pub length-clamp_lines {ℓ} :
    {A : Type ℓ} (lines : List A) (max : ℕ) → length (clamp_lines lines max) ≤ max
unfolding clamp_lines
length-clamp_lines lines max = ground (arith, length-drop (length lines - max) lines)
