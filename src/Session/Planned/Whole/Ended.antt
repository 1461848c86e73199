-- ===== src/Session/Planned/Whole/Ended.antt =====
-- How `runAgentWithTools` ends: by a plan, or by an answer that is earned in its rounds.
use krellin.Prelude.{◌≡◌, ◌⊎◌, true, List, if◌then◌else◌}
use krellin.Prelude.Text.{Text}
use krellin.Session.{ToolResult}
use krellin.Session.Rounds.{Hands, Enforce, Outcome, text_of, run_rounds}
use krellin.Session.Rounds.Enforced.{Earned}
use krellin.Session.Planned.{Readings, Desk, Planned, planned, unplanned}
use krellin.Session.Planned.Whole.{run_planned}

module _ {S : Type 0} (hands : Hands S) (readings : Readings) where
  -- The text and the session at the end, after what the planning came to.
  abbrev Rounded : Enforce → Text → S → Text × Desk S → Type 0
  Rounded e content s (text, after) =
      (outcome : Outcome) × (results : List ToolResult) × (run_rounds hands e content s
        ≡ (outcome, results, after.outside))
      × (text ≡ text_of outcome)
      × Earned e outcome results

  abbrev pub Ended : Enforce → Text → Desk S → Text × Desk S → Type 0
  Ended e content d (text, after) =
      ((e.multi ≡ true) × (run_planned hands readings e.write content d ≡ (planned text, after)))
      ⊎ ((at : Desk S) × ((if e.multi
              then run_planned hands readings e.write content d
              else (unplanned, d))
            ≡ (unplanned, at))
          × Rounded e content at.outside (text, after))
