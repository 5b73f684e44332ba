-- ===== src/Dates/Occurrence.antt =====
-- The next occurrence is the first one, and there is one.
use proactive_mcp.Prelude.{
  ℕ, ◌+◌, ◌≤◌, ◌<◌, ◌≡◌, refl, sym, subst, Bool, true, false, not, ◌&&◌, none, some, arith, leb,
  ◌==◌, ==→eq, Bool-cases, Option-cases, inl, inr,
}
use proactive_mcp.Dates.{
  Date, date_le, is_leap_year, days_in_month, is_valid_date, make_date, occurrence_in_year,
  yearly_occurrence_on_or_after,
}

occurrence_in_year-year :
    (year month day : ℕ) (o : Date) → occurrence_in_year year month day ≡ some o → o.year ≡ year
unfolding occurrence_in_year make_date
occurrence_in_year-year year month day o h = ground arith

date_le-year : (a b : Date) → date_le a b ≡ true → a.year ≤ b.year
date_le-year a b h = ground arith

date_le-earlier : (a b : Date) → a.year < b.year → date_le a b ≡ true
date_le-earlier a b h = ground arith

date_le_refl : (a : Date) → date_le a a ≡ true
date_le_refl a = ground arith

abbrev IsFirst : Date → ℕ → ℕ → Date → Type 0
IsFirst today month day o =
    (year : ℕ) (p : Date)
    → occurrence_in_year year month day ≡ some p
    → date_le today p ≡ true
    → date_le o p ≡ true

module _ (today : Date) (month day : ℕ) (q : Date)
    (this : occurrence_in_year today.year month day ≡ some q) where
  -- This year's occurrence comes before those of later years.
  this-IsFirst : IsFirst today month day q
  this-IsFirst year p e later =
      let from_today = date_le-year today p later in
      let at = occurrence_in_year-year today.year month day q this in
      let in_year = occurrence_in_year-year year month day p e in
      elim (Bool-cases (today.year == year)) [
        | inl same ↦
            let e' : occurrence_in_year today.year month day ≡ some p =
              subst (λ y. occurrence_in_year y month day ≡ some p)
                (sym (==→eq today.year year same)) e in
            let one : q ≡ p = cc in subst (λ r. date_le q r ≡ true) one (date_le_refl q)
        | inr other ↦ date_le-earlier q p (ground (arith, from_today, at, in_year))
      ]

  -- Once this year's has passed, next year's is the first.
  next-IsFirst :
      (o : Date)
      → date_le today q ≡ false
      → occurrence_in_year (today.year + 1) month day ≡ some o
      → IsFirst today month day o
  next-IsFirst o passed next year p e later =
      let from_today = date_le-year today p later in
      let at = occurrence_in_year-year (today.year + 1) month day o next in
      let in_year = occurrence_in_year-year year month day p e in
      elim (Bool-cases (today.year == year)) [
        | inl same ↦
            let e' : occurrence_in_year today.year month day ≡ some p =
              subst (λ y. occurrence_in_year y month day ≡ some p)
                (sym (==→eq today.year year same)) e in
            let one : q ≡ p = cc in
            let late : date_le today q ≡ true =
              subst (λ r. date_le today r ≡ true) (sym one) later in
            absurd (cc)
        | inr other ↦ elim (Bool-cases ((today.year + 1) == year)) [
          | inl same ↦
              let e' : occurrence_in_year (today.year + 1) month day ≡ some p =
                subst (λ y. occurrence_in_year y month day ≡ some p)
                  (sym (==→eq (today.year + 1) year same)) e in
              let one : o ≡ p = cc in subst (λ r. date_le o r ≡ true) one (date_le_refl o)
          | inr after ↦ date_le-earlier o p (ground (arith, from_today, at, in_year))
        ]
      ]

-- The occurrence that is returned is not before today, and no occurrence, of any year, that is not
-- before today is earlier.
pub yearly_occurrence_first :
    (today : Date) (month day : ℕ) (o : Date)
    → yearly_occurrence_on_or_after today month day ≡ some o
    → (date_le today o ≡ true)
      × ((year : ℕ) (p : Date)
          → occurrence_in_year year month day ≡ some p
          → date_le today p ≡ true
          → date_le o p ≡ true)
unfolding yearly_occurrence_on_or_after
yearly_occurrence_first today month day o h =
    elim (Option-cases (occurrence_in_year today.year month day)) [
      | inl refused ↦ absurd (nothing refused)
      | inr (q, this) ↦ elim (Bool-cases (date_le today q)) [
        | inl later ↦
            let one : q ≡ o = current q this later in
            (
              subst (λ r. date_le today r ≡ true) one later,
              subst (λ r. IsFirst today month day r) one (this-IsFirst today month day q this),
            )
        | inr passed ↦
            let next = following q this passed in
            (
              date_le-earlier today o
                  (omega (arith, occurrence_in_year-year (today.year + 1) month day o next)),
              next-IsFirst today month day q this o passed next,
            )
      ]
    ]
  where
    nothing : occurrence_in_year today.year month day ≡ none → ⊥
    nothing e = let h' = rw e at h in cc

    current :
        (q : Date)
        → occurrence_in_year today.year month day ≡ some q
        → date_le today q ≡ true
        → q ≡ o
    current q e later = let h' = rw (e, later) at h in cc

    following :
        (q : Date)
        → occurrence_in_year today.year month day ≡ some q
        → date_le today q ≡ false
        → occurrence_in_year (today.year + 1) month day ≡ some o
    following q e passed = rw (e, passed) at h

february_28 : (year : ℕ) → 1 ≤ year → year ≤ 9999 → is_valid_date year 2 28 ≡ true
unfolding is_valid_date
february_28 year above below = ground arith

month_le :
    (leap : Bool) (month day : ℕ)
    → leb day (days_in_month true month) ≡ true
    → (month == 2 && day == 29 && not leap) ≡ false
    → leb day (days_in_month leap month) ≡ true
month_le true month day h plain = h
month_le false month day h plain = ground arith

valid_again :
    (year month day : ℕ)
    → is_valid_date 2024 month day ≡ true
    → 1 ≤ year
    → year ≤ 9999
    → (month == 2 && day == 29 && not (is_leap_year year)) ≡ false
    → is_valid_date year month day ≡ true
unfolding is_valid_date is_leap_year
valid_again year month day valid above below plain =
    let fits = month_le (is_leap_year year) month day (ground arith) plain in ground (arith, fits)

-- An anchor of 2024 is a date of every year, with February 29 as the 28th where there is none.
occurrence_in_year-some :
    (year month day : ℕ)
    → is_valid_date 2024 month day ≡ true
    → 1 ≤ year
    → year ≤ 9999
    → (o : Date) × (occurrence_in_year year month day ≡ some o)
unfolding occurrence_in_year make_date
occurrence_in_year-some year month day valid above below =
    elim (Bool-cases (month == 2 && day == 29 && not (is_leap_year year))) [
      | inl leap ↦ (
        record { year = year; month = 2; day = 28 },
        rw leap (rw (february_28 year above below) refl),
      )
      | inr plain ↦ (
        record { year = year; month = month; day = day },
        rw plain (rw (valid_again year month day valid above below plain) refl),
      )
    ]

-- An anchor that is a date in the leap year 2024 has a next occurrence from every day before the
-- year 9999.
pub yearly_occurrence_exists :
    (today : Date) (month day : ℕ)
    → is_valid_date 2024 month day ≡ true
    → 1 ≤ today.year
    → today.year < 9999
    → (o : Date) × (yearly_occurrence_on_or_after today month day ≡ some o)
unfolding yearly_occurrence_on_or_after
yearly_occurrence_exists today month day valid low high =
    let (this, e) = occurrence_in_year-some today.year month day valid low (omega (arith, high)) in
    let (later, f) =
      occurrence_in_year-some (today.year + 1) month day valid (omega arith)
        (omega (arith, high)) in
    elim (Bool-cases (date_le today this)) [
      | inl fits ↦ (this, rw e (rw fits refl))
      | inr passed ↦ (later, rw e (rw passed f))
    ]
