-- ===== src/Evaluation/Engine/Report.antt =====
-- What the warnings and the contributions of a pass say about its sources.
use proactive_mcp.Prelude.{
  ℕ, ◌≡◌, refl, sym, ap, subst, All, Bool-cases, inl, inr, ◌==◌, ==→eq, arith, String, Option, none,
  some, List, [], ◌∷◌, ◌++◌, map, if◌then◌else◌,
}
use proactive_mcp.Model.Situation.{SituationEvidence, DetectionApplySummary}
use proactive_mcp.Model.Source.{SourceName, gmail, calendar, SourceReadDiagnostics}
use proactive_mcp.Db.{Db, Outcome, raised, returned}
use proactive_mcp.Sources.Consistency.{SourceTruth, Readings, apply_source_generation}
use proactive_mcp.Sources.Freshness.{
  SourceFreshness, SourceFreshnessStatus, ok, unconfigured, never_synced, stale, error, reauth,
}
use proactive_mcp.Evaluation.Engine.{
  SourceSnapshot, CalendarRun, EngineInputs, EvaluationWarning, Contribution, unless_delayed,
  is_delayed, delayed, sum_of, capacity_warning, gmail_truth, calendar_truth, apply_or_delayed,
  with_codes, source_is, is_ok_status, is_skipped, skip_warning, status_warning, warnings_of,
}

pub append-nil : {A : Type 0} (xs ys : List A) → xs ++ ys ≡ [] → (xs ≡ []) × (ys ≡ [])
append-nil [] ys e = (refl, e)
append-nil (x ∷ xs) ys e = absurd (cc)

pub map-nil : {A B : Type 0} (f : A → B) (xs : List A) → map f xs ≡ [] → xs ≡ []
map-nil f [] e = refl
map-nil f (x ∷ xs) e = absurd (cc)

status_warning-nil :
    (source : SourceName) (f : SourceFreshness) → status_warning source f ≡ [] → f.status ≡ ok
status_warning-nil source f e = by_status f.status e
  where
    by_status :
        (s : SourceFreshnessStatus)
        → (if is_ok_status s then [] else source_is source s ∷ []) ≡ []
        → s ≡ ok
    by_status ok h = refl
    by_status unconfigured h = absurd (cc)
    by_status never_synced h = absurd (cc)
    by_status stale h = absurd (cc)
    by_status error h = absurd (cc)
    by_status reauth h = absurd (cc)

pub with_codes-nil :
    (source : SourceName) (codes : List String) (c : Contribution)
    → (with_codes source codes c).1 ≡ []
    → (c.1 ≡ []) × (codes ≡ [])
with_codes-nil source codes c e =
    let (before, after) = append-nil c.1 _ e in (before, map-nil _ codes after)

pub warnings_of-nil :
    (inputs : EngineInputs) (g c : SourceFreshness) (ws : List EvaluationWarning)
    → warnings_of inputs g c ws ≡ []
    → (ws ≡ []) × (g.status ≡ ok) × (c.status ≡ ok)
unfolding warnings_of
warnings_of-nil inputs g c ws e =
    let skips_gmail = skip_warning gmail (is_skipped inputs.gmail_threads) g in
    let skips_calendar = skip_warning calendar (is_skipped inputs.calendar_events) c in
    let upto = ws ++ skips_gmail ++ skips_calendar in
    let first = append-nil (upto ++ status_warning gmail g) (status_warning calendar c) e in
    let second = append-nil upto (status_warning gmail g) first.0 in
    let third = append-nil (ws ++ skips_gmail) skips_calendar second.0 in
    (
      (append-nil ws skips_gmail third.0).0,
      status_warning-nil gmail g second.1,
      status_warning-nil calendar c first.1,
    )

pub sum_of-zero :
    (f : DetectionApplySummary → ℕ) (xs : List DetectionApplySummary)
    → sum_of f xs ≡ 0
    → All (λ a. f a ≡ 0) xs
sum_of-zero f [] e = tt
sum_of-zero f (a ∷ rest) e = (omega (arith, e), sum_of-zero f rest (omega (arith, e)))

pub capacity_warning-nil : (n : ℕ) → capacity_warning n ≡ [] → n ≡ 0
capacity_warning-nil n e = elim (Bool-cases (n == 0)) [
  | inl zero_skipped ↦ ==→eq n 0 zero_skipped
  | inr some_skipped ↦ let k = rw some_skipped at e in absurd (cc)
]

abbrev pub skipped_by_capacity : DetectionApplySummary → ℕ
skipped_by_capacity a = a.upsert.capacity_skipped

-- The truth that the pass applies for a source, and the codes reported with it.
abbrev pub gmail_part :
    Option SourceReadDiagnostics → Option SourceSnapshot → Option (SourceTruth × List String)
gmail_part diagnostics none = none
gmail_part diagnostics (some s) = some (gmail_truth s diagnostics, s.warning_codes)

abbrev pub calendar_part : Option CalendarRun → Option (SourceTruth × List String)
calendar_part none = none
calendar_part (some run) = some (calendar_truth run, run.snapshot.warning_codes ++ run.run_codes)

module _ (evidence_bytes : SituationEvidence → ℕ) (stale_after : ℕ) where
  -- The database after the part of a source.
  abbrev pub after_part : Readings → Option (SourceTruth × List String) → Db → Db
  after_part at none db = db
  after_part at (some p) db = (apply_source_generation evidence_bytes at p.0 db).1

  -- The truth of a source that was read was applied, no detection was rejected for want of capacity,
  -- and no code was reported.
  abbrev pub WasApplied : Readings → Option (SourceTruth × List String) → Db → Type 0
  WasApplied at none db = Unit {0}
  WasApplied at (some p) db =
      (summary : DetectionApplySummary) × ((apply_source_generation evidence_bytes at p.0 db).0
        ≡ returned summary)
      × (skipped_by_capacity summary ≡ 0)
      × (p.1 ≡ [])

  -- What a contribution without warnings and without skipped detections says.
  pub contributed :
      (source : SourceName) (at : Readings) (t : SourceTruth) (codes : List String) (db : Db)
      (c : Contribution)
      → (apply_or_delayed evidence_bytes stale_after source at t db).0 ≡ returned c
      → c.1 ≡ []
      → All (λ a. skipped_by_capacity a ≡ 0) c.0
      → codes ≡ []
      → WasApplied at (some (t, codes)) db
  unfolding apply_or_delayed
  contributed source at t codes db c e clean room none_reported =
      by_result (apply_source_generation evidence_bytes at t db) refl e
    where
      by_result :
          (r : Outcome DetectionApplySummary × Db)
          → apply_source_generation evidence_bytes at t db ≡ r
          → (unless_delayed source r).0 ≡ returned c
          → WasApplied at (some (t, codes)) db
      by_result (returned summary, db') q h =
          let same : (summary ∷ [], []) ≡ c = cc in
          let kept : All (λ a. skipped_by_capacity a ≡ 0) (summary ∷ []) =
            subst (λ k. All (λ a. skipped_by_capacity a ≡ 0) k.0) (sym same) room in
          (summary, ap (λ k. k.0) q, kept.0, none_reported)
      by_result (raised x, db') q h = elim (Bool-cases (is_delayed x)) [
        | inl late ↦
            let k = rw late at h in
            let same : c ≡ ([], delayed source ∷ []) = cc in
            let warned = ap (λ k. k.1) same in absurd (cc)
        | inr other ↦ let k = rw other at h in absurd (cc)
      ]

  pub apply_or_delayed-db :
      (source : SourceName) (at : Readings) (t : SourceTruth) (db : Db)
      → (apply_or_delayed evidence_bytes stale_after source at t db).1
        ≡ (apply_source_generation evidence_bytes at t db).1
  unfolding apply_or_delayed
  apply_or_delayed-db source at t db = by_result (apply_source_generation evidence_bytes at t db)
    where
      by_result : (r : Outcome DetectionApplySummary × Db) → (unless_delayed source r).1 ≡ r.1
      by_result (returned summary, db') = refl
      by_result (raised x, db') = refl
