-- ===== src/Examples/Mails.antt =====
-- The deadline scan at a small calendar with years of 365 days.
use proactive_mcp.Prelude.{suc, ◌+◌, ◌*◌, ◌/◌, ◌≡◌, refl, true, some, [], ◌∷◌, arith}
use proactive_mcp.Detectors.DeadlineText.{
  DateRules, DeadlinePatterns, scan_deadline_text, IsCalendar, IsCurrent,
  scan_deadline_text-IsCurrent, relative_dates, yearless_dates, first_marker, date_candidates,
  full_dates,
}

abbrev plain_years : DateRules
plain_years = record { year_of = λ d. d / 365; date = λ y m d. some (y * 365 + m * 30 + d) }

plain_years-IsCalendar : IsCalendar plain_years
plain_years-IsCalendar today month day later e =
    let same : suc (today / 365) * 365 + month * 30 + day ≡ later = cc in omega (arith, same)

-- A text with a marker, a date in the first month and "tomorrow".
abbrev one_mail : DeadlinePatterns
one_mail = record {
  scanned = λ t. t;
  markers = (λ t. some "due") ∷ [];
  iso_dates = λ t. [];
  korean_dates = λ t. [];
  english_dates = λ t. (0, 3) ∷ [];
  slash_dates = λ t. [];
  relative_days = ((λ t. true), 1) ∷ [];
}

scan_mail : (scan_deadline_text plain_years one_mail "due" 400).deadline_date ≡ some 401
unfolding scan_deadline_text first_marker date_candidates full_dates yearless_dates relative_dates
scan_mail = refl

scan_deadline_text-IsCurrent_example : IsCurrent plain_years 400 401
scan_deadline_text-IsCurrent_example =
    scan_deadline_text-IsCurrent plain_years plain_years-IsCalendar one_mail "due" 400 401 refl
      scan_mail
