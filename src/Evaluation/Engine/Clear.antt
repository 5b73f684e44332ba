-- ===== src/Evaluation/Engine/Clear.antt =====
-- A pass of the engine as its steps, and what a pass without warnings says of each.
use proactive_mcp.Prelude.{
  ℕ, ◌≡◌, refl, sym, ap, ◌∙◌, subst, All, Option, none, some, List, [], ◌∷◌, ◌++◌, String,
}
use proactive_mcp.Model.Situation.{SituationEvidence, Detection, DetectionApplySummary}
use proactive_mcp.Model.Source.{gmail, calendar, SourceReadDiagnostics}
use proactive_mcp.Db.{Db, returned, query, pure, bind-returned, through, through_query}
use proactive_mcp.Situations.Transitions.{wake_snoozed, expire_lapsed}
use proactive_mcp.Sources.Consistency.{SourceTruth, Readings, apply_local_detections}
use proactive_mcp.Sources.SyncState.{source_sync}
use proactive_mcp.Sources.Freshness.{ok, evaluate_source_freshness}
use proactive_mcp.Evaluation.Engine.{
  SourceSnapshot, CalendarRun, EngineInputs, EvaluationResult, EngineReadings, Contribution,
  with_codes, apply_gmail, apply_calendar, gmail_truth, calendar_truth, report, evaluate,
}
use proactive_mcp.Evaluation.Engine.Report.{
  append-nil, sum_of-zero, capacity_warning-nil, with_codes-nil, warnings_of-nil,
  skipped_by_capacity, gmail_part, calendar_part, after_part, WasApplied, contributed,
  apply_or_delayed-db,
}

All-parts : {A : Type 0} (P : A → Type 0) (xs ys : List A) → All P (xs ++ ys) → All P xs × All P ys
All-parts P [] ys h = (tt, h)
All-parts P (x ∷ xs) ys h = let rest = All-parts P xs ys h.1 in ((h.0, rest.0), rest.1)

module _ (evidence_bytes : SituationEvidence → ℕ) (stale_after : ℕ) where
  -- What the part of a source leaves, and what it says if it contributes no warning.
  record IsPart (at : Readings) (part : Option (SourceTruth × List String)) (db after : Db)
      (c : Contribution) : Type 0 where
    left : after ≡ after_part evidence_bytes stale_after at part db
    applied :
        c.1 ≡ []
        → All (λ a. skipped_by_capacity a ≡ 0) c.0
        → WasApplied evidence_bytes stale_after at part db

  apply_gmail-IsPart :
      (at : Readings) (d : Option SourceReadDiagnostics) (o : Option SourceSnapshot) (db : Db)
      (c : Contribution)
      → (apply_gmail evidence_bytes stale_after at d o db).0 ≡ returned c
      → IsPart at (gmail_part d o) db (apply_gmail evidence_bytes stale_after at d o db).1 c
  unfolding apply_gmail pure
  apply_gmail-IsPart at d none db c e = record { left = refl; applied = λ clean room. tt }
  apply_gmail-IsPart at d (some s) db c e =
      let (a, first, rest) = bind-returned _ _ db c e in
      let same : with_codes gmail s.warning_codes a ≡ c = cc in
      record {
        left =
            ap (λ r. r.1) rest
            ∙ apply_or_delayed-db evidence_bytes stale_after gmail at (gmail_truth s d) db;
        applied = λ clean room.
            let both = with_codes-nil gmail s.warning_codes a (ap (λ k. k.1) same ∙ clean) in
            contributed evidence_bytes stale_after gmail at (gmail_truth s d) s.warning_codes db a
              first both.0 (subst (λ k. All (λ x. skipped_by_capacity x ≡ 0) k.0) (sym same) room)
              both.1;
      }

  apply_calendar-IsPart :
      (at : Readings) (o : Option CalendarRun) (db : Db) (c : Contribution)
      → (apply_calendar evidence_bytes stale_after at o db).0 ≡ returned c
      → IsPart at (calendar_part o) db (apply_calendar evidence_bytes stale_after at o db).1 c
  unfolding apply_calendar pure
  apply_calendar-IsPart at none db c e = record { left = refl; applied = λ clean room. tt }
  apply_calendar-IsPart at (some run) db c e =
      let (a, first, rest) = bind-returned _ _ db c e in
      let inner = with_codes calendar run.snapshot.warning_codes a in
      let same : with_codes calendar run.run_codes inner ≡ c = cc in
      record {
        left =
            ap (λ r. r.1) rest
            ∙ apply_or_delayed-db evidence_bytes stale_after calendar at (calendar_truth run) db;
        applied = λ clean room.
            let outer = with_codes-nil calendar run.run_codes inner (ap (λ k. k.1) same ∙ clean) in
            let both = with_codes-nil calendar run.snapshot.warning_codes a outer.0 in
            contributed evidence_bytes stale_after calendar at (calendar_truth run)
              (run.snapshot.warning_codes ++ run.run_codes) db a first both.0
              (subst (λ k. All (λ x. skipped_by_capacity x ≡ 0) k.0) (sym same) room)
              (rw (both.1, outer.1) refl);
      }

  module _ (occasions : ℕ → Db → List Detection) (at : EngineReadings) (inputs : EngineInputs)
      (db : Db) where
    -- The databases between the steps of a pass: the snoozed rows are woken and the lapsed ones
    -- expired; the local detections are applied; Gmail's are; Calendar's are.
    abbrev pub before_local : Db
    before_local = (expire_lapsed at.expired_at (wake_snoozed at.woken_at db).1).1

    abbrev pub after_local : Db
    after_local =
        (apply_local_detections evidence_bytes at.local_at (occasions at.now before_local)
          before_local).1

    abbrev pub gmail_applied : Option (SourceTruth × List String)
    gmail_applied = gmail_part inputs.gmail_diagnostics inputs.gmail_threads

    abbrev pub after_gmail : Db
    after_gmail = after_part evidence_bytes stale_after at.gmail_at gmail_applied after_local

    abbrev pub after_pass : Db
    after_pass =
        after_part evidence_bytes stale_after at.calendar_at (calendar_part inputs.calendar_events)
          after_gmail

    -- A true all-clear, which leaves the database `after`: every detection of the pass was applied
    -- and none rejected for want of capacity, no code was reported, and both sources are fresh in
    -- the database that the pass leaves.
    pub record IsAllClear (after : Db) : Type 0 where
      pub last : after ≡ after_pass
      pub local_summary : DetectionApplySummary
      pub local_applied :
          (apply_local_detections evidence_bytes at.local_at
            (occasions at.now before_local)
            before_local).0
          ≡ returned local_summary
      pub local_room : skipped_by_capacity local_summary ≡ 0
      pub from_gmail : WasApplied evidence_bytes stale_after at.gmail_at gmail_applied after_local
      pub from_calendar :
          WasApplied evidence_bytes stale_after at.calendar_at
            (calendar_part inputs.calendar_events)
            after_gmail
      pub gmail_ok :
          (evaluate_source_freshness (source_sync gmail after) at.now stale_after).status ≡ ok
      pub calendar_ok :
          (evaluate_source_freshness (source_sync calendar after) at.now stale_after).status ≡ ok

    -- The last step of a pass, on what the parts left.
    reported :
        (r : EvaluationResult) (woken expired : ℕ) (local_summary : DetectionApplySummary)
        (from_gmail from_calendar : Contribution) (middle after : Db)
        → (apply_local_detections evidence_bytes at.local_at
            (occasions at.now before_local)
            before_local).0
          ≡ returned local_summary
        → IsPart at.gmail_at gmail_applied after_local middle from_gmail
        → IsPart at.calendar_at (calendar_part inputs.calendar_events) middle after from_calendar
        → report evidence_bytes stale_after at.now inputs woken expired
            (local_summary ∷ (from_gmail.0 ++ from_calendar.0))
            (from_gmail.1 ++ from_calendar.1)
            after
          ≡ r
        → r.warnings ≡ []
        → IsAllClear after
    unfolding report
    reported r woken expired local_summary from_gmail from_calendar middle after e p q same clear =
        let (sources, gmail_ok, calendar_ok) =
          warnings_of-nil inputs _ _ _ (ap (λ k. k.warnings) same ∙ clear) in
        let (own, capacity) = append-nil (from_gmail.1 ++ from_calendar.1) _ sources in
        let (own_gmail, own_calendar) = append-nil from_gmail.1 from_calendar.1 own in
        let room =
          sum_of-zero skipped_by_capacity (local_summary ∷ (from_gmail.0 ++ from_calendar.0))
            (capacity_warning-nil _ capacity) in
        let (room_gmail, room_calendar) =
          All-parts (λ a. skipped_by_capacity a ≡ 0) from_gmail.0 from_calendar.0 room.1 in
        record {
          last =
              q.left
              ∙ ap
                  (after_part evidence_bytes stale_after at.calendar_at
                    (calendar_part inputs.calendar_events))
                  p.left;
          local_summary = local_summary;
          local_applied = e;
          local_room = room.0;
          from_gmail = p.applied own_gmail room_gmail;
          from_calendar =
              subst
                (WasApplied evidence_bytes stale_after at.calendar_at
                  (calendar_part inputs.calendar_events))
                p.left (q.applied own_calendar room_calendar);
          gmail_ok = gmail_ok;
          calendar_ok = calendar_ok;
        }

    last_query :
        (r : EvaluationResult) (woken expired : ℕ) (summary : DetectionApplySummary)
        (g c : Contribution)
        → (apply_local_detections evidence_bytes at.local_at
            (occasions at.now before_local)
            before_local).0
          ≡ returned summary
        → (apply_gmail evidence_bytes stale_after at.gmail_at inputs.gmail_diagnostics
            inputs.gmail_threads after_local).0
          ≡ returned g
        → (apply_calendar evidence_bytes stale_after at.calendar_at inputs.calendar_events
            (apply_gmail evidence_bytes stale_after at.gmail_at inputs.gmail_diagnostics
              inputs.gmail_threads after_local).1).0
          ≡ returned c
        → (query
            (report evidence_bytes stale_after at.now inputs woken expired
              (summary ∷ (g.0 ++ c.0))
              (g.1 ++ c.1))
            (apply_calendar evidence_bytes stale_after at.calendar_at inputs.calendar_events
              (apply_gmail evidence_bytes stale_after at.gmail_at inputs.gmail_diagnostics
                inputs.gmail_threads after_local).1).1).0
          ≡ returned r
        → r.warnings ≡ []
        → IsAllClear
            (apply_calendar evidence_bytes stale_after at.calendar_at inputs.calendar_events
              (apply_gmail evidence_bytes stale_after at.gmail_at inputs.gmail_diagnostics
                inputs.gmail_threads after_local).1).1
    unfolding query
    last_query r woken expired summary g c e4 e5 e6 h clear =
        reported r woken expired summary g c _ _ e4
          (apply_gmail-IsPart at.gmail_at inputs.gmail_diagnostics inputs.gmail_threads after_local
            g e5)
          (apply_calendar-IsPart at.calendar_at inputs.calendar_events _ c e6) (cc) clear

    -- No false all-clear of the engine: the sources are judged on what the pass leaves.
    pub evaluate-IsAllClear :
        (r : EvaluationResult)
        → (evaluate evidence_bytes stale_after occasions at inputs db).0 ≡ returned r
        → r.warnings ≡ []
        → IsAllClear (evaluate evidence_bytes stale_after occasions at inputs db).1
    unfolding evaluate query apply_calendar
    evaluate-IsAllClear r e clear = through IsAllClear _ _ _ r e λ woken e1 h1.
        through IsAllClear _ _ _ r h1 λ expired e2 h2. through_query IsAllClear _ _ _ r h2 λ h3.
          through IsAllClear _ _ _ r h3 λ summary e4 h4.
            through IsAllClear _ _ _ r h4 λ gmail_c e5 h5.
              through IsAllClear _ _ _ r h5 λ calendar_c e6 h6.
                last_query r woken expired summary gmail_c calendar_c e4 e5 e6 h6 clear
