-- ===== src/Conflicts/Pairwise.antt =====
-- The sweep reports what a comparison of all pairs reports.
use mathlib.Core.List.{append-nil, append_assoc}
use proactive_mcp.Prelude.{
  ℕ, zero, suc, ◌≤◌, ◌≡◌, refl, sym, ap, subst, ◌∙◌, Bool, true, false, List, [], ◌∷◌, ◌++◌, map,
  arith, Bool-cases, inl, inr, leb, leb→le, if◌then◌else◌, select_where, length, length-append,
  take,
}
use proactive_mcp.Conflicts.{
  Interval, Conflict, Actives, max_calendar_conflicts, expire_ends, add_conflicts, candidates_of,
  push, sweep, no_actives,
}
use proactive_mcp.Conflicts.Sweep.{is_live, expire_ends-active}
use proactive_mcp.Conflicts.Agreement.{IsAgreed, is_timed, expire_ends-IsAgreed, push-IsAgreed}
use proactive_mcp.Conflicts.Output.{
  conflict_of, conflicts_with, bounded, bounded-short, add_conflicts_lem,
}
use proactive_mcp.Conflicts.Tracks.{
  overlaps, all_pairs, StartsRise, Tracks, Tracks-push, candidates-pairs,
}

take-append {ℓ} :
    {A : Type ℓ} (n : ℕ) (xs ys : List A) → n ≤ length xs → take n (xs ++ ys) ≡ take n xs
take-append zero xs ys h = refl
take-append (suc n) [] ys h = absurd (omega (arith, h))
take-append (suc n) (x ∷ xs) ys h = ap (λ l. x ∷ l) (take-append n xs ys (omega (arith, h)))

bounded-long :
    (xs ys : List Conflict)
    → leb (length xs) max_calendar_conflicts ≡ false
    → bounded (xs ++ ys) ≡ (take max_calendar_conflicts xs, false)
bounded-long xs ys h =
    let longer : leb (length (xs ++ ys)) max_calendar_conflicts ≡ false =
      rw (length-append xs ys) (ground arith) in
    rw longer (ap (λ l. (l, false)) (take-append max_calendar_conflicts xs ys (ground arith)))

-- The loop from a state that tracks what was seen.
sweep-pairs :
    (now n last : ℕ) (state : Actives) (seen rest : List Interval) (found : List Conflict)
    → IsAgreed n state
    → Tracks last state.active seen
    → StartsRise last rest
    → length found ≤ max_calendar_conflicts
    → sweep now n state rest found ≡ bounded (found ++ all_pairs now seen rest)
unfolding sweep push
sweep-pairs now n last state seen [] found agreed tracks rise h =
    sym (ap bounded (append-nil found) ∙ bounded-short found h)
sweep-pairs now n last state seen (current ∷ rest) found agreed tracks rise h =
    elim (Bool-cases (leb (length total) max_calendar_conflicts)) [
      | inl fits ↦ rw added (
          rw fits (
            ap (sweep now (suc n) (push n current live) rest) (
              ap (λ r. r.0)
                (bounded-short total (leb→le (length total) max_calendar_conflicts fits)))
            ∙ sweep-pairs now (suc n) current.start (push n current live) (seen ++ current ∷ [])
                rest total (push-IsAgreed n current live live_agreed) now_tracks rise.1
                (leb→le (length total) max_calendar_conflicts fits)
            ∙ ap bounded (append_assoc found pairs (all_pairs now (seen ++ current ∷ []) rest))))
      | inr over ↦ rw added (
          rw over (
            sym (
              ap bounded
                (sym (append_assoc found pairs (all_pairs now (seen ++ current ∷ []) rest)))
              ∙ bounded-long total (all_pairs now (seen ++ current ∷ []) rest) over)))
    ]
  where
    pairs : List Conflict
    pairs = map (conflict_of current) (select_where (overlaps now current) seen)

    total : List Conflict
    total = found ++ pairs

    live : Actives
    live = expire_ends current.start state.ends state.active state.active_timed

    live_agreed : IsAgreed n live
    live_agreed =
        expire_ends-IsAgreed n current.start state.ends state.active state.active_timed agreed

    left : live.active ≡ select_where (is_live current.start) state.active
    left =
        expire_ends-active current.start state.ends state.active state.active_timed agreed.rising
          agreed.covered agreed.agrees

    same_candidates :
        (b : Bool)
        → (if b then live.active_timed else live.active) ≡ (
            if b
            then select_where is_timed (select_where (is_live current.start) state.active)
            else select_where (is_live current.start) state.active)
    same_candidates true = live_agreed.timed ∙ ap (select_where is_timed) left
    same_candidates false = left

    now_tracks : Tracks current.start (live.active ++ (n, current) ∷ []) (seen ++ current ∷ [])
    now_tracks =
        subst (λ l. Tracks current.start (l ++ (n, current) ∷ []) (seen ++ current ∷ [])) (sym left)
          (Tracks-push n last state.active seen current rise.0 tracks)

    added : add_conflicts now current (candidates_of current live) found ≡ bounded total
    added =
        add_conflicts_lem now current (candidates_of current live) found h
        ∙ ap (λ l. bounded (found ++ l))
            (ap (conflicts_with now current) (same_candidates current.all_day)
              ∙ candidates-pairs now last state.active seen current rise.0 tracks)

-- On intervals in the order of their starts, the sweep finds the pairs of an earlier and a later
-- interval that overlap in time that is not over and are not both all-day, in the order of the later
-- and then of the earlier one; of more than 1,000 it keeps the first 1,000, and says so.
pub sweep_lem :
    (now : ℕ) (ordered : List Interval)
    → StartsRise 0 ordered
    → sweep now 0 no_actives ordered [] ≡ (
      take max_calendar_conflicts (all_pairs now [] ordered),
      leb (length (all_pairs now [] ordered)) max_calendar_conflicts,
    )
sweep_lem now ordered rise =
    sweep-pairs now 0 0 no_actives [] ordered []
      (record {
        rising = tt;
        covered = tt;
        agrees = tt;
        low_ends = tt;
        low_active = tt;
        timed = refl;
      })
      (λ t h. refl) rise (omega arith)
