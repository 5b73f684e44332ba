-- ===== src/Detectors/OccasionGroups.antt =====
-- The detections of src/proactive_mcp/situations/personal_occasion.py: one for each group of rows
-- that share an entity and an attribute.
use proactive_mcp.Prelude.{
  ℕ, suc, ◌≡◌, refl, String, Bool, true, false, Option, none, some, List, [], ◌∷◌, ◌++◌, map, ltb,
  if◌then◌else◌, select_where, All, All-unselected, All-select_where, arith, Bool-cases, inl, inr,
  length, subst, sym,
}
use mathlib.Core.List.{Memᴰ}
use proactive_mcp.Prelude.Sort.{sort}
use Prim.Native.String.{◌++◌ as ◌<>◌}
use proactive_mcp.Model.Situation.{Detection, personal_occasion, high}
use proactive_mcp.Model.Memory.{MemoryRow, is_free}
use proactive_mcp.Attention.{Timezone}
use proactive_mcp.Dates.{Date}
use proactive_mcp.Detectors.PersonalOccasion.{
  MemoryItem, OccasionRules, Occurrence, Groups, attribute_word, source_word, occasion_label,
  lead_days_of, without_repeats, anchors_of, joined, memory_quote, group_items, days_until,
  in_window, sooner, soonest,
}

abbrev more_than_one : List String → Bool
more_than_one anchors = ltb 1 (length anchors)

module _ (rules : OccasionRules) where
  abbrev pub recorded_anchors : List Occurrence → List String
  recorded_anchors rows = without_repeats (sort rules.text_before (anchors_of rows))

  abbrev pub item_key : MemoryRow → String → String
  item_key r year = "personal_occasion:item:" <> rules.str r.id <> ":" <> year

  abbrev pub fact_key_text : MemoryRow → String → Option ℕ → String
  fact_key_text r year none = item_key r year
  fact_key_text r year (some i) =
      if is_free r.attribute
      then item_key r year
      else "personal_occasion:entity:"
        <> rules.str i
        <> ":"
        <> attribute_word r.attribute
        <> ":"
        <> year

  -- _dedupe_key
  unfoldable pub occasion_key : MemoryRow → ℕ → String
  occasion_key r year = fact_key_text r (rules.str year) r.entity_id

  abbrev pub why_text : Date → Occurrence → List String → String
  why_text today t anchors =
      "D-"
      <> rules.str (days_until rules today t)
      <> ": upcoming "
      <> occasion_label t.item.row.attribute
      <> " on "
      <> rules.iso t.occurrence
      <> (if more_than_one anchors
          then " - contradictory dates on record: " <> joined ", " anchors
          else "")

  abbrev pub ids_text : List Occurrence → String
  ids_text rows =
      joined ","
        (map (λ o. rules.str o.item.row.id) (sort (λ a b. ltb a.item.row.id b.item.row.id) rows))

  -- _memory_quotes
  unfoldable pub memory_quotes : MemoryItem → List (String × String)
  memory_quotes item =
      ("content", item.row.content)
      ∷ (memory_quote "entity" item.entity ++ memory_quote "entity_path" item.entity_path)

  module _ (tz : Timezone) (today : Date) (default_lead_days : ℕ) where
    -- The detection of a group whose trigger is known.
    unfoldable pub occasion_detection : List Occurrence → Occurrence → Detection
    occasion_detection rows t = record {
      situation_type = personal_occasion;
      dedupe_key = occasion_key t.item.row t.occurrence.year;
      priority = high;
      title = "Upcoming " <> occasion_label t.item.row.attribute;
      why_now = why_text today t (recorded_anchors rows);
      evidence = record {
        facts =
            ("selected_memory_id", rules.str t.item.row.id)
            ∷ ("memory_ids", ids_text rows)
            ∷ ("occurrence", rules.iso t.occurrence)
            ∷ ("days_until", rules.str (days_until rules today t))
            ∷ ("lead_days", rules.str (lead_days_of default_lead_days t))
            ∷ ("memory_source", source_word t.item.row.source)
            ∷ [];
        quoted_external = [];
        quoted_memory = memory_quotes t.item;
        contradictory_dates =
            if more_than_one (recorded_anchors rows) then recorded_anchors rows else [];
      };
      expires_at = some (tz.midnight (suc (rules.day_number t.occurrence)));
    }

    abbrev pub eligible_rows : List Occurrence → List Occurrence
    eligible_rows = select_where (in_window rules today default_lead_days)

    abbrev pub by_trigger : List Occurrence → List Occurrence → Option Detection
    by_trigger rows [] = none
    by_trigger rows (o ∷ rest) = some (occasion_detection rows (soonest rules o rest))

    -- _group_detection
    unfoldable pub group_detection : List Occurrence → Option Detection
    group_detection rows = by_trigger rows (eligible_rows rows)

    abbrev pub with_detection : Option Detection → List Detection → List Detection
    with_detection none ds = ds
    with_detection (some d) ds = d ∷ ds

    unfoldable pub detect_groups : Groups → List Detection
    detect_groups [] = []
    detect_groups ((key, rows) ∷ rest) = with_detection (group_detection rows) (detect_groups rest)

  unfoldable pub detect_personal_occasions : Timezone → ℕ → ℕ → List MemoryItem → List Detection
  detect_personal_occasions tz default_lead_days now items =
      let today = rules.date_of (tz.local_date now) in
      detect_groups tz today default_lead_days (group_items rules items today [])

  sooner-before :
      (a b m : Occurrence)
      → sooner rules a b ≡ true
      → sooner rules a m ≡ false
      → sooner rules b m ≡ false
  sooner-before a b m p q = ground arith

  sooner-behind :
      (a b m : Occurrence)
      → sooner rules a b ≡ false
      → sooner rules b m ≡ false
      → sooner rules a m ≡ false
  sooner-behind a b m p q = ground arith

  -- What `min` returns is a row that no other row is sooner than.
  soonest_lem :
      (best : Occurrence) (rest : List Occurrence)
      → All (λ o. sooner rules o (soonest rules best rest) ≡ false) (best ∷ rest)
  unfolding soonest
  soonest_lem best [] = (ground arith, tt)
  soonest_lem best (o ∷ rest) = by_test (λ b. soonest_lem b rest) (sooner rules o best) refl
    where
      by_test :
          ((b : Occurrence) → All (λ x. sooner rules x (soonest rules b rest) ≡ false) (b ∷ rest))
          → (b : Bool) → sooner rules o best ≡ b
          → All
              (λ x. sooner rules x (soonest rules (if b then o else best) rest) ≡ false)
              (best ∷ o ∷ rest)
      by_test later true e =
          let ih = later o in (sooner-before o best (soonest rules o rest) e ih.0, ih)
      by_test later false e =
          let ih = later best in
          (ih.0, (sooner-behind o best (soonest rules best rest) e ih.0, ih.1))

  soonest-All :
      (P : Occurrence → Type 0) (best : Occurrence) (rest : List Occurrence)
      → All P (best ∷ rest)
      → P (soonest rules best rest)
  unfolding soonest
  soonest-All P best [] h = h.0
  soonest-All P best (o ∷ rest) h =
      soonest-All P (if sooner rules o best then o else best) rest
        (kept (sooner rules o best), h.1.1)
    where
      kept : (b : Bool) → P (if b then o else best)
      kept true = h.1.0
      kept false = h.0

  module _ (tz : Timezone) (today : Date) (default_lead_days : ℕ) where
    abbrev windowed : Occurrence → Bool
    windowed = in_window rules today default_lead_days

    All-windowed :
        (rows : List Occurrence) → All (λ o. windowed o ≡ true) (select_where windowed rows)
    All-windowed [] = tt
    All-windowed (o ∷ rows) = elim (Bool-cases (windowed o)) [
      | inl e ↦ rw e (e, All-windowed rows)
      | inr e ↦ rw e (All-windowed rows)
    ]

    -- Each row is one of its own list, and so is each row in its window.
    All-rows :
        (all rows : List Occurrence)
        → ((o : Occurrence) → Memᴰ o rows → Memᴰ o all)
        → All (λ o. Memᴰ o all) rows
    All-rows all [] within = tt
    All-rows all (o ∷ rows) within =
        (within o (Memᴰ.head refl), All-rows all rows (λ x h. within x (Memᴰ.tail h)))

    none_windowed :
        (rows : List Occurrence)
        → select_where windowed rows ≡ []
        → All (λ o. windowed o ≡ false) rows
    none_windowed [] e = tt
    none_windowed (o ∷ rows) e = elim (Bool-cases (windowed o)) [
      | inl p ↦ let k = rw p at e in absurd (cc)
      | inr p ↦ let k = rw p at e in (p, none_windowed rows k)
    ]

    -- What the detection of a group says of its rows.
    pub data GroupOutcome (rows : List Occurrence) : Option Detection → Type 0 where
      not_yet :
          All (λ o. in_window rules today default_lead_days o ≡ false) rows → GroupOutcome rows none
      triggered :
          (t : Occurrence)
          → Memᴰ t rows
          → in_window rules today default_lead_days t ≡ true
          → All
              (λ o. in_window rules today default_lead_days o ≡ true → sooner rules o t ≡ false)
              rows
          → GroupOutcome rows (some (occasion_detection tz today default_lead_days rows t))

    -- A group is detected exactly when one of its rows is within its own lead window, and the
    -- detection is made from a row of the group in its window that no other row of the group in its
    -- window is sooner than.
    pub group_detection_outcome :
        (rows : List Occurrence)
        → GroupOutcome rows (group_detection tz today default_lead_days rows)
    unfolding group_detection
    group_detection_outcome rows = by_eligible (eligible_rows tz today default_lead_days rows) refl
      where
        by_eligible :
            (eligible : List Occurrence)
            → eligible_rows tz today default_lead_days rows ≡ eligible
            → GroupOutcome rows (by_trigger tz today default_lead_days rows eligible)
        by_eligible [] e = not_yet (none_windowed rows e)
        by_eligible (o ∷ rest) e =
            triggered (soonest rules o rest)
              (soonest-All (λ x. Memᴰ x rows) o rest
                (subst (All (λ x. Memᴰ x rows)) e (
                  All-select_where (λ x. Memᴰ x rows) windowed rows
                    (All-rows rows rows (λ x h. h)))))
              (soonest-All (λ x. windowed x ≡ true) o rest
                (subst (All (λ x. windowed x ≡ true)) e (All-windowed rows)))
              (All-unselected (λ x. sooner rules x (soonest rules o rest) ≡ false) windowed rows
                (subst (All (λ x. sooner rules x (soonest rules o rest) ≡ false)) (sym e)
                  (soonest_lem o rest)))
