-- ===== src/Examples/Occasions.antt =====
-- A birthday in two days, in a calendar with months of 30 days.
use proactive_mcp.Prelude.{ℕ, ◌+◌, ◌*◌, ◌/◌, ◌%◌, false, none, some, List, [], ◌∷◌}
use proactive_mcp.Dates.{Date}
use proactive_mcp.Detectors.PersonalOccasion.{OccasionRules, Occurrence}
use proactive_mcp.Detectors.OccasionGroups.{GroupOutcome, group_detection, group_detection_outcome}
use proactive_mcp.Examples.Data.{utc}
use proactive_mcp.Examples.Items.{ada_row}

abbrev plain_occasions : OccasionRules
plain_occasions = record {
  full_anchor = λ t. some (2024, 12, 10);
  yearless_anchor = λ t. none;
  content_norm = λ t. t;
  day_number = λ d. d.year * 360 + d.month * 30 + d.day;
  date_of = λ n. record { year = n / 360; month = n % 360 / 30; day = n % 30 };
  str = λ n. "n";
  iso = λ d. "2026-12-10";
  text_before = λ a b. false;
}

abbrev december : ℕ → Date
december day = record { year = 2026; month = 12; day = day }

abbrev ada_occurrences : List Occurrence
ada_occurrences =
    (record {
      item = record { row = ada_row; entity = some "ada"; entity_path = none };
      occurrence = december 10;
    })
    ∷ []

group_detection_outcome_example :
    GroupOutcome plain_occasions utc
      (december 8)
      7
      ada_occurrences
      (group_detection plain_occasions utc (december 8) 7 ada_occurrences)
group_detection_outcome_example =
    group_detection_outcome plain_occasions utc (december 8) 7 ada_occurrences
