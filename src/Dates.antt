-- ===== src/Dates.antt =====
-- src/proactive_mcp/situations/_dates.py: the next yearly occurrence of an anchor. What `date`
-- refuses with a ValueError is written out; the reading of anchors as text is not modelled.
pub mod Occurrence
use proactive_mcp.Prelude.{
  ℕ, ◌+◌, ◌%◌, Bool, true, false, not, ◌&&◌, ◌||◌, Option, none, some, ltb, leb, ◌==◌,
  if◌then◌else◌,
}

pub record Date : Type 0 where
  pub year : ℕ
  pub month : ℕ
  pub day : ℕ

abbrev pub date_le : Date → Date → Bool
date_le a b =
    ltb a.year b.year
    || (a.year == b.year && (ltb a.month b.month || (a.month == b.month && leb a.day b.day)))

unfoldable pub is_leap_year : ℕ → Bool
is_leap_year year = year % 4 == 0 && (not (year % 100 == 0) || year % 400 == 0)

abbrev pub days_in_month : Bool → ℕ → ℕ
days_in_month leap month =
    if month == 2
    then (if leap then 29 else 28)
    else if month == 4 || month == 6 || month == 9 || month == 11
    then 30
    else 31

unfoldable pub is_valid_date : ℕ → ℕ → ℕ → Bool
is_valid_date year month day =
    leb 1 year
    && leb year 9999
    && leb 1 month
    && leb month 12
    && leb 1 day
    && leb day (days_in_month (is_leap_year year) month)

-- date(year, month, day)
unfoldable pub make_date : ℕ → ℕ → ℕ → Option Date
make_date year month day =
    if is_valid_date year month day
    then some (record { year = year; month = month; day = day })
    else none

unfoldable pub occurrence_in_year : ℕ → ℕ → ℕ → Option Date
occurrence_in_year year month day =
    if month == 2 && day == 29 && not (is_leap_year year)
    then make_date year 2 28
    else make_date year month day

abbrev pub or_next_year : Date → ℕ → ℕ → Option Date → Option Date
or_next_year today month day none = none
or_next_year today month day (some occurrence) =
    if date_le today occurrence
    then some occurrence
    else occurrence_in_year (today.year + 1) month day

unfoldable pub yearly_occurrence_on_or_after : Date → ℕ → ℕ → Option Date
yearly_occurrence_on_or_after today month day =
    or_next_year today month day (occurrence_in_year today.year month day)
