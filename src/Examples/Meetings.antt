-- ===== src/Examples/Meetings.antt =====
-- The sweep over three meetings.
use proactive_mcp.Prelude.{◌≡◌, List, [], ◌∷◌, false, true, arith, take, leb, length}
use proactive_mcp.Conflicts.{Interval, sweep, no_actives, max_calendar_conflicts}
use proactive_mcp.Conflicts.Tracks.{all_pairs}
use proactive_mcp.Conflicts.Pairwise.{sweep_lem}

abbrev meetings : List Interval
meetings =
    record { event_id = "trip"; start = 100; end = 900; all_day = true }
    ∷ record { event_id = "standup"; start = 200; end = 400; all_day = false }
    ∷ record { event_id = "review"; start = 300; end = 500; all_day = false }
    ∷ []

sweep_lem_example : sweep 150 0 no_actives meetings [] ≡ (
  take max_calendar_conflicts (all_pairs 150 [] meetings),
  leb (length (all_pairs 150 [] meetings)) max_calendar_conflicts,
)
sweep_lem_example = sweep_lem 150 meetings (omega arith, (omega arith, (omega arith, tt)))
