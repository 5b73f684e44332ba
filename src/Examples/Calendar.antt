-- ===== src/Examples/Calendar.antt =====
-- The theorems on dates at February 29.
use proactive_mcp.Prelude.{ℕ, ◌≡◌, refl, true, some, arith}
use proactive_mcp.Dates.{
  Date, date_le, is_valid_date, is_leap_year, make_date, occurrence_in_year,
  yearly_occurrence_on_or_after,
}
use proactive_mcp.Dates.Occurrence.{yearly_occurrence_first, yearly_occurrence_exists}

abbrev march : Date
march = record { year = 2026; month = 3; day = 1 }

abbrev next_february : Date
next_february = record { year = 2027; month = 2; day = 28 }

found : yearly_occurrence_on_or_after march 2 29 ≡ some next_february
unfolding yearly_occurrence_on_or_after occurrence_in_year make_date is_valid_date is_leap_year
found = refl

yearly_occurrence_first_example :
    (date_le march next_february ≡ true)
    × ((year : ℕ) (p : Date)
        → occurrence_in_year year 2 29 ≡ some p
        → date_le march p ≡ true
        → date_le next_february p ≡ true)
yearly_occurrence_first_example = yearly_occurrence_first march 2 29 next_february found

yearly_occurrence_exists_example : (o : Date) × (yearly_occurrence_on_or_after march 2 29 ≡ some o)
unfolding is_valid_date is_leap_year
yearly_occurrence_exists_example =
    yearly_occurrence_exists march 2 29 refl (omega arith) (omega arith)
