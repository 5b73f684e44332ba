-- ===== src/Detectors/DeadlineText.antt =====
-- src/proactive_mcp/situations/_deadline_text.py: a deadline in the text of a mail. What the
-- regular expressions match, and the calendar of Python, are arguments.
use proactive_mcp.Prelude.{
  ℕ, suc, ◌+◌, ◌≤◌, min, ◌≡◌, String, Bool, true, false, Option, none, some, List, [], ◌∷◌, ◌++◌,
  ltb, if◌then◌else◌, All, arith, Bool-cases, inl, inr, refl, subst, All-append,
}

-- The matches of the compiled patterns in a text, from left to right.
pub record DeadlinePatterns : Type 0 where
  -- text[:_MAX_SCAN_LENGTH]
  pub scanned : String → String
  -- pattern.search(text), the matched text, for each of _MARKERS
  pub markers : List (String → Option String)
  -- year, month and day of every _ISO_DATE
  pub iso_dates : String → List (ℕ × ℕ × ℕ)
  -- month and day of every _KOREAN_DATE, of every _ENGLISH_DATE (by _MONTH_NUMBERS), of every
  -- _SLASH_DATE
  pub korean_dates : String → List (ℕ × ℕ)
  pub english_dates : String → List (ℕ × ℕ)
  pub slash_dates : String → List (ℕ × ℕ)
  -- _RELATIVE: whether the pattern is in the text, and its days
  pub relative_days : List ((String → Bool) × ℕ)

-- Python's dates, as numbers of days.
pub record DateRules : Type 0 where
  pub year_of : ℕ → ℕ
  -- date(year, month, day), or its ValueError
  pub date : ℕ → ℕ → ℕ → Option ℕ

pub record DeadlineScan : Type 0 where
  pub matched_marker : Option String
  pub deadline_date : Option ℕ

-- _ROLLOVER_GRACE, in days
abbrev pub rollover_grace : ℕ
rollover_grace = 7

abbrev pub with_date : Option ℕ → List ℕ → List ℕ
with_date none dates = dates
with_date (some date) dates = date ∷ dates

abbrev pub or_first : Option String → Option String → Option String
or_first none next = next
or_first (some marker) next = some marker

unfoldable pub first_marker : List (String → Option String) → String → Option String
first_marker [] text = none
first_marker (search ∷ rest) text = or_first (search text) (first_marker rest text)

unfoldable pub relative_dates : List ((String → Bool) × ℕ) → String → ℕ → List ℕ
relative_dates [] text today = []
relative_dates ((occurs, days) ∷ rest) text today =
    let found = relative_dates rest text today in
    if occurs text then (today + days) ∷ found else found

-- min(candidates) if candidates else None
abbrev pub least : ℕ → List ℕ → ℕ
least d [] = d
least d (e ∷ rest) = min d (least e rest)

abbrev pub earliest : List ℕ → Option ℕ
earliest [] = none
earliest (d ∷ rest) = some (least d rest)

module _ (rules : DateRules) where
  -- A candidate of this year, or the same day of the next year once it is out of the grace.
  abbrev pub rolled : ℕ → ℕ → ℕ → Option ℕ → Option ℕ
  rolled today month day none = none
  rolled today month day (some candidate) =
      if ltb (candidate + rollover_grace) today
      then rules.date (suc (rules.year_of today)) month day
      else some candidate

  unfoldable pub yearless_dates : List (ℕ × ℕ) → ℕ → List ℕ
  yearless_dates [] today = []
  yearless_dates ((month, day) ∷ rest) today =
      with_date (rolled today month day (rules.date (rules.year_of today) month day))
        (yearless_dates rest today)

  -- _iso_dates
  unfoldable pub full_dates : List (ℕ × ℕ × ℕ) → List ℕ
  full_dates [] = []
  full_dates ((year, month, day) ∷ rest) = with_date (rules.date year month day) (full_dates rest)

  unfoldable pub date_candidates : DeadlinePatterns → String → ℕ → List ℕ
  date_candidates patterns text today =
      full_dates (patterns.iso_dates text)
      ++ yearless_dates (patterns.korean_dates text) today
      ++ yearless_dates (patterns.english_dates text) today
      ++ yearless_dates (patterns.slash_dates text) today
      ++ relative_dates patterns.relative_days text today

  abbrev pub scan_of : Option String → List ℕ → DeadlineScan
  scan_of none candidates = record { matched_marker = none; deadline_date = none }
  scan_of (some marker) candidates = record {
    matched_marker = some marker;
    deadline_date = earliest candidates;
  }

  unfoldable pub scan_deadline_text : DeadlinePatterns → String → ℕ → DeadlineScan
  scan_deadline_text patterns text today =
      scan_of (first_marker patterns.markers (patterns.scanned text))
        (date_candidates patterns (patterns.scanned text) today)

  -- A day of the next year is not before a day of this one.
  abbrev pub IsCalendar : Type 0
  IsCalendar =
      (today month day later : ℕ)
      → rules.date (suc (rules.year_of today)) month day ≡ some later
      → today ≤ later

  -- In the grace, or later.
  abbrev pub IsCurrent : ℕ → ℕ → Type 0
  IsCurrent today d = today ≤ d + rollover_grace

  with_date-IsCurrent :
      (today : ℕ) (o : Option ℕ) (dates : List ℕ)
      → ((d : ℕ) → o ≡ some d → IsCurrent today d)
      → All (IsCurrent today) dates
      → All (IsCurrent today) (with_date o dates)
  with_date-IsCurrent today none dates h all = all
  with_date-IsCurrent today (some d) dates h all = (h d refl, all)

  rolled-IsCurrent :
      IsCalendar
      → (today month day : ℕ) (o : Option ℕ) (d : ℕ) → rolled today month day o ≡ some d
      → IsCurrent today d
  rolled-IsCurrent calendar today month day none d e = absurd (cc)
  rolled-IsCurrent calendar today month day (some c) d e =
      by_grace (ltb (c + rollover_grace) today) refl e
    where
      by_grace :
          (passed : Bool)
          → ltb (c + rollover_grace) today ≡ passed
          → (if passed then rules.date (suc (rules.year_of today)) month day else some c) ≡ some d
          → IsCurrent today d
      by_grace true p q = let later = calendar today month day d q in omega (arith, later)
      by_grace false p q = let same : c ≡ d = cc in ground (arith, same, p)

  yearless_dates-IsCurrent :
      IsCalendar
      → (pairs : List (ℕ × ℕ)) (today : ℕ) → All (IsCurrent today) (yearless_dates pairs today)
  unfolding yearless_dates
  yearless_dates-IsCurrent calendar [] today = tt
  yearless_dates-IsCurrent calendar ((month, day) ∷ rest) today =
      with_date-IsCurrent today _ _
        (λ d e.
          rolled-IsCurrent calendar today month day (rules.date (rules.year_of today) month day) d
            e)
        (yearless_dates-IsCurrent calendar rest today)

  relative_dates-IsCurrent :
      (days : List ((String → Bool) × ℕ)) (text : String) (today : ℕ)
      → All (IsCurrent today) (relative_dates days text today)
  unfolding relative_dates
  relative_dates-IsCurrent [] text today = tt
  relative_dates-IsCurrent ((occurs, days) ∷ rest) text today = elim (Bool-cases (occurs text)) [
    | inl e ↦ rw e (omega arith, relative_dates-IsCurrent rest text today)
    | inr e ↦ rw e (relative_dates-IsCurrent rest text today)
  ]

  least-IsCurrent :
      (today d : ℕ) (rest : List ℕ)
      → All (IsCurrent today) (d ∷ rest)
      → IsCurrent today (least d rest)
  least-IsCurrent today d [] h = h.0
  least-IsCurrent today d (e ∷ rest) h =
      let below = least-IsCurrent today e rest h.1 in omega (arith, below, h.0)

  date_candidates-IsCurrent :
      IsCalendar
      → (patterns : DeadlinePatterns) (text : String) (today : ℕ) → patterns.iso_dates text ≡ []
      → All (IsCurrent today) (date_candidates patterns text today)
  unfolding date_candidates full_dates
  date_candidates-IsCurrent calendar patterns text today no_iso = rw no_iso (
      All-append (IsCurrent today) _ _
        (All-append (IsCurrent today) _ _
          (All-append (IsCurrent today) _ _
            (yearless_dates-IsCurrent calendar (patterns.korean_dates text) today)
            (yearless_dates-IsCurrent calendar (patterns.english_dates text) today))
          (yearless_dates-IsCurrent calendar (patterns.slash_dates text) today))
        (relative_dates-IsCurrent patterns.relative_days text today))

  scan_of-IsCurrent :
      (today d : ℕ) (marker : Option String) (candidates : List ℕ)
      → All (IsCurrent today) candidates
      → (scan_of marker candidates).deadline_date ≡ some d
      → IsCurrent today d
  scan_of-IsCurrent today d none candidates h e = absurd (cc)
  scan_of-IsCurrent today d (some marker) [] h e = absurd (cc)
  scan_of-IsCurrent today d (some marker) (c ∷ rest) h e =
      let same : least c rest ≡ d = cc in
      subst (IsCurrent today) same (least-IsCurrent today c rest h)

  -- Where no day of the next year is before a day of this one, a deadline that is found in a text
  -- without an ISO date is at most seven days in the past.
  pub scan_deadline_text-IsCurrent :
      IsCalendar
      → (patterns : DeadlinePatterns) (text : String) (today d : ℕ)
      → patterns.iso_dates (patterns.scanned text) ≡ []
      → (scan_deadline_text patterns text today).deadline_date ≡ some d
      → IsCurrent today d
  unfolding scan_deadline_text
  scan_deadline_text-IsCurrent calendar patterns text today d no_iso e =
      scan_of-IsCurrent today d _ _
        (date_candidates-IsCurrent calendar patterns (patterns.scanned text) today no_iso) e
