-- ===== src/Attention/Selection.antt =====
-- What `select_for_delivery` chooses.
use proactive_mcp.Prelude.{
  ℕ, zero, suc, ◌+◌, ◌-◌, ◌<◌, ◌≤◌, ◌≡◌, refl, Bool, true, false, not, ◌&&◌, Option, none, some,
  List, [], ◌∷◌, arith, All, All-append, All-take, All-select_where, Bool-cases, inl, inr,
  if◌then◌else◌, count_where, count_where-append, select_where, take, ltb,
}
use proactive_mcp.Prelude.Sort.{sort, sort-All}
use proactive_mcp.Model.Situation.{Situation, pending, is_pending, is_critical}
use proactive_mcp.Db.{Db, returned, ◌>>=◌}
use proactive_mcp.Situations.Reader.{is_muted, list_situations, state_matches}
use proactive_mcp.Situations.Statements.{snooze, wake}
use proactive_mcp.Situations.Transitions.{list_page}
use proactive_mcp.Delivery.Eligibility.{cooled_down}
use proactive_mcp.Attention.{
  Timezone, AttentionSettings, order_before, quiet_state, budget_usage, cooling_down, candidates,
  choose, keep_unless, choose_from, select_for_delivery, default_page_size,
}
use proactive_mcp.Attention.Budget.{usage_at}

abbrev is_usual : Situation → Bool
is_usual c = not (is_critical c.priority)

none-critical :
    (xs : List Situation) → count_where is_usual (select_where (λ c. is_critical c.priority) xs) ≡ 0
none-critical [] = refl
none-critical (x ∷ xs) = elim (Bool-cases (is_critical x.priority)) [
  | inl e ↦ rw e (rw e (omega (arith, none-critical xs)))
  | inr e ↦ rw e (none-critical xs)
]

count_where-take {ℓ} :
    {A : Type ℓ} (p : A → Bool) (n : ℕ) (xs : List A) → count_where p (take n xs) ≤ n
count_where-take p zero xs = omega arith
count_where-take p (suc n) [] = omega arith
count_where-take p (suc n) (x ∷ xs) = elim (Bool-cases (p x)) [
  | inl e ↦ rw e (omega (arith, count_where-take p n xs))
  | inr e ↦ rw e (omega (arith, count_where-take p n xs))
]

choose-le :
    (quiet : Bool) (remaining : ℕ) (xs : List Situation)
    → count_where is_usual (choose quiet remaining xs) ≤ (if quiet then 0 else remaining)
unfolding choose
choose-le true remaining xs = rw (none-critical xs) (omega arith)
choose-le false remaining xs =
    let urgent = select_where (λ c. is_critical c.priority) xs in
    let others = take remaining (select_where is_usual xs) in
    rw (count_where-append is_usual urgent others) (
      rw (none-critical xs)
        (omega (arith, count_where-take is_usual remaining (select_where is_usual xs))))

choose-All :
    (P : Situation → Type 0) (quiet : Bool) (remaining : ℕ) (xs : List Situation)
    → All P xs
    → All P (choose quiet remaining xs)
unfolding choose
choose-All P true remaining xs h = All-select_where P _ xs h
choose-All P false remaining xs h =
    All-append P _ _ (All-select_where P _ xs h)
      (All-take P remaining _ (All-select_where P _ xs h))

module _ (tz : Timezone) (settings : AttentionSettings) (now : ℕ) where
  -- A pending row that may be chosen.
  pub record IsCandidate (db : Db) (s : Situation) : Type 0 where
    pub state : is_pending s.state ≡ true
    pub unmuted : is_muted db s.situation_type ≡ false
    pub rested : cooling_down tz settings now s ≡ some false

  abbrev AllFound : Db → Option (List Situation) → Type 0
  AllFound db none = Unit {0}
  AllFound db (some found) = All (IsCandidate db) found

  keep_unless-All :
      (db : Db) (s : Situation) (cooling : Option Bool) (more : Option (List Situation))
      → (cooling ≡ some false → IsCandidate db s)
      → AllFound db more
      → AllFound db (keep_unless tz settings s cooling more)
  keep_unless-All db s none more h k = tt
  keep_unless-All db s (some cooling) none h k = tt
  keep_unless-All db s (some true) (some rest) h k = k
  keep_unless-All db s (some false) (some rest) h k = (h refl, k)

  candidates-All :
      (db : Db) (page : List Situation)
      → All (λ s. is_pending s.state ≡ true) page
      → AllFound db (candidates tz settings now db page)
  unfolding candidates
  candidates-All db [] h = tt
  candidates-All db (s ∷ page) h = elim (Bool-cases (is_muted db s.situation_type)) [
    | inl muted ↦ rw muted (candidates-All db page h.1)
    | inr unmuted ↦ rw unmuted (
        keep_unless-All db s (cooling_down tz settings now s) (candidates tz settings now db page)
          (λ rested. record { state = h.0; unmuted = unmuted; rested = rested })
          (candidates-All db page h.1))
  ]

  page-is_pending :
      (rows : List Situation)
      → All
          (λ s. is_pending s.state ≡ true)
          (select_where (λ s. state_matches (some pending) s.state && ltb 0 s.id) rows)
  page-is_pending [] = tt
  page-is_pending (s ∷ rows) =
      elim (Bool-cases (state_matches (some pending) s.state && ltb 0 s.id)) [
        | inl e ↦ rw e (ground arith, page-is_pending rows)
        | inr e ↦ rw e (page-is_pending rows)
      ]

  -- When `select_for_delivery` returns, it has changed nothing, and what it returns are pending
  -- situations, of types that are not muted, that do not cool down; the ones that are not critical
  -- number at most what is left of the daily budget, and none in quiet hours.
  pub select_for_delivery_outcome :
      (db : Db) (chosen : List Situation)
      → (select_for_delivery tz settings now db).0 ≡ returned chosen
      → ((select_for_delivery tz settings now db).1 ≡ db)
        × All (IsCandidate db) chosen
        × (count_where (λ c. not (is_critical c.priority)) chosen ≤ (
            if quiet_state tz settings now
            then 0
            else settings.daily_budget - usage_at tz settings now db))
  unfolding select_for_delivery list_page list_situations budget_usage ◌>>=◌
  select_for_delivery_outcome db chosen h =
      selected (candidates tz settings now db page)
        (candidates-All db page (All-take _ default_page_size _ (page-is_pending db.situations))) h
    where
      page : List Situation
      page =
          take default_page_size
            (select_where (λ s. state_matches (some pending) s.state && ltb 0 s.id) db.situations)

      selected :
          (found : Option (List Situation))
          → AllFound db found
          → (choose_from tz settings now found db).0 ≡ returned chosen
          → ((choose_from tz settings now found db).1 ≡ db)
            × All (IsCandidate db) chosen
            × (count_where (λ c. not (is_critical c.priority)) chosen ≤ (
                if quiet_state tz settings now
                then 0
                else settings.daily_budget - usage_at tz settings now db))
      selected none k e = absurd (cc)
      selected (some found) k e =
          let same : choose (quiet_state tz settings now)
                (settings.daily_budget - usage_at tz settings now db) (sort order_before found)
              ≡ chosen =
            cc in
          (
            refl,
            rw⁻¹ same (
                choose-All (IsCandidate db) (quiet_state tz settings now) _ _
                  (sort-All order_before _ _ k)),
            rw⁻¹ same (choose-le (quiet_state tz settings now) _ _),
          )

-- A row whose delivery lies less than the policy's cooldown back, where the cooldown does not reach
-- before the first instant, and that the user then snoozes: as long as it sleeps the policy finds
-- that it does not cool down, but once it is woken the policy finds that it does, while the store's
-- own test of the woken row, at any cutoff, lets it through.
pub woken_cooldown :
    (tz : Timezone) (settings : AttentionSettings) (now : ℕ) (db : Db) (s : Situation)
    (delivered_at until snoozed_at woken_at cutoff : ℕ)
    → s.delivered_at ≡ some delivered_at
    → settings.cooldown ≤ now
    → now < delivered_at + settings.cooldown
    → (cooling_down tz settings now (snooze until snoozed_at s) ≡ some false)
      × (cooling_down tz settings now (wake woken_at (snooze until snoozed_at s)) ≡ some true)
      × (cooled_down db cutoff (wake woken_at (snooze until snoozed_at s)) ≡ true)
unfolding cooling_down snooze wake cooled_down
woken_cooldown tz settings now db s delivered_at until snoozed_at woken_at cutoff e reach recent =
    (rw e refl, rw e (ground arith), refl)
