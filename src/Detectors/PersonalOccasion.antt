-- ===== src/Detectors/PersonalOccasion.antt =====
-- src/proactive_mcp/situations/personal_occasion.py, with parse_anchor of _dates.py. What the regular
-- expressions match, Python's texts and the numbers of days are arguments. A row that raises is
-- skipped with a warning in the log, as one without an occurrence is.
use proactive_mcp.Prelude.{
  ℕ, ◌-◌, String, Bool, true, false, ◌&&◌, ◌||◌, Option, none, some, List, [], ◌∷◌, ◌++◌, ltb, leb,
  ◌==◌, str_eq, if◌then◌else◌,
}
use Prim.Native.String.{◌++◌ as ◌<>◌}
use proactive_mcp.Model.Memory.{
  MemoryRow, MemoryKind, MemoryAttribute, MemoryRecurrence, MemorySource, birthday, anniversary,
  deadline, relationship, free, agent_conversation, manual, is_free, is_yearly, kind_index,
  attribute_index, recurrence_index,
}
use proactive_mcp.Dates.{Date, date_le, make_date, is_valid_date, yearly_occurrence_on_or_after}

-- A MemoryItem: the row with the label and the path of its entity.
pub record MemoryItem : Type 0 where
  pub row : MemoryRow
  pub entity : Option String
  pub entity_path : Option String

pub record OccasionRules : Type 0 where
  -- the groups of _FULL_ANCHOR and of _YEARLESS_ANCHOR, as numbers
  pub full_anchor : String → Option (ℕ × ℕ × ℕ)
  pub yearless_anchor : String → Option (ℕ × ℕ)
  -- normalize_memory_content
  pub content_norm : String → String
  -- date.toordinal and its inverse
  pub day_number : Date → ℕ
  pub date_of : ℕ → Date
  pub str : ℕ → String
  pub iso : Date → String
  -- `<` on texts
  pub text_before : String → String → Bool

pub record Occurrence : Type 0 where
  pub item : MemoryItem
  pub occurrence : Date

-- _group_key
pub data GroupKey : Type 0 where
  free_group : MemoryKind → Option ℕ → Option String → MemoryRecurrence → String → GroupKey
  entity_group : ℕ → MemoryAttribute → GroupKey
  item_group : ℕ → GroupKey

abbrev pub same_id : Option ℕ → Option ℕ → Bool
same_id none none = true
same_id (some i) (some j) = i == j
same_id _ _ = false

abbrev pub same_anchor : Option String → Option String → Bool
same_anchor none none = true
same_anchor (some a) (some b) = str_eq a b
same_anchor _ _ = false

abbrev pub same_group : GroupKey → GroupKey → Bool
same_group (free_group k e a r c) (free_group k' e' a' r' c') =
    kind_index k == kind_index k'
    && same_id e e'
    && same_anchor a a'
    && recurrence_index r == recurrence_index r'
    && str_eq c c'
same_group (entity_group i a) (entity_group j b) = i == j && attribute_index a == attribute_index b
same_group (item_group i) (item_group j) = i == j
same_group _ _ = false

-- groups.setdefault(key, []).append(row), in the order of the dict
abbrev pub Groups : Type 0
Groups = List (GroupKey × List Occurrence)

unfoldable pub add_to_group : GroupKey → Occurrence → Groups → Groups
add_to_group key o [] = (key, o ∷ []) ∷ []
add_to_group key o ((k, rows) ∷ rest) =
    let others = add_to_group key o rest in
    if same_group k key then (k, rows ++ o ∷ []) ∷ rest else (k, rows) ∷ others

abbrev pub attribute_word : MemoryAttribute → String
attribute_word birthday = "birthday"
attribute_word anniversary = "anniversary"
attribute_word deadline = "deadline"
attribute_word relationship = "relationship"
attribute_word free = "free"

abbrev pub source_word : MemorySource → String
source_word agent_conversation = "agent_conversation"
source_word manual = "manual"

abbrev pub occasion_label : MemoryAttribute → String
occasion_label attribute = if is_free attribute then "saved date" else attribute_word attribute

abbrev pub lead_days_of : ℕ → Occurrence → ℕ
lead_days_of default o = by_row o.item.row.lead_days
  where
    by_row : Option ℕ → ℕ
    by_row none = default
    by_row (some days) = days

abbrev pub anchor_list : Option String → List String
anchor_list none = []
anchor_list (some anchor) = anchor ∷ []

-- Neighbours in a sorted list that are equal, once
unfoldable pub without_repeats : List String → List String
without_repeats [] = []
without_repeats (a ∷ []) = a ∷ []
without_repeats (a ∷ b ∷ rest) =
    let others = without_repeats (b ∷ rest) in if str_eq a b then others else a ∷ others

unfoldable pub anchors_of : List Occurrence → List String
anchors_of [] = []
anchors_of (o ∷ rows) = anchor_list o.item.row.date_anchor ++ anchors_of rows

abbrev pub joined : String → List String → String
joined sep [] = ""
joined sep (part ∷ []) = part
joined sep (part ∷ more ∷ rest) = part <> sep <> joined sep (more ∷ rest)

abbrev pub memory_quote : String → Option String → List (String × String)
memory_quote key none = []
memory_quote key (some value) = (key, value) ∷ []

module _ (rules : OccasionRules) where
  abbrev pub valid_yearless : ℕ → ℕ → Option (Option ℕ × ℕ × ℕ)
  valid_yearless month day = if is_valid_date 2024 month day then some (none, month, day) else none

  abbrev pub by_yearless : Option (ℕ × ℕ) → Option (Option ℕ × ℕ × ℕ)
  by_yearless none = none
  by_yearless (some (month, day)) = valid_yearless month day

  abbrev pub by_full : Option (ℕ × ℕ × ℕ) → Option (Option ℕ × ℕ × ℕ) → Option (Option ℕ × ℕ × ℕ)
  by_full none other = other
  by_full (some (year, month, day)) other =
      if is_valid_date year month day then some (some year, month, day) else none

  unfoldable pub parse_anchor : String → Option (Option ℕ × ℕ × ℕ)
  parse_anchor anchor =
      by_full (rules.full_anchor anchor) (by_yearless (rules.yearless_anchor anchor))

  abbrev pub upcoming : Date → Option Date → Option Date
  upcoming today none = none
  upcoming today (some occurrence) = if date_le today occurrence then some occurrence else none

  abbrev pub by_parts : Date → MemoryRecurrence → Option (Option ℕ × ℕ × ℕ) → Option Date
  by_parts today recurrence none = none
  by_parts today recurrence (some (none, month, day)) =
      yearly_occurrence_on_or_after today month day
  by_parts today recurrence (some (some year, month, day)) =
      if is_yearly recurrence
      then yearly_occurrence_on_or_after today month day
      else upcoming today (make_date year month day)

  abbrev pub by_anchor : Date → MemoryRecurrence → Option String → Option Date
  by_anchor today recurrence none = none
  by_anchor today recurrence (some anchor) = by_parts today recurrence (parse_anchor anchor)

  -- _next_occurrence
  unfoldable pub next_occurrence : MemoryRow → Date → Option Date
  next_occurrence r today = by_anchor today r.recurrence r.date_anchor

  abbrev pub fact_group : MemoryRow → Option ℕ → GroupKey
  fact_group r none = item_group r.id
  fact_group r (some i) = entity_group i r.attribute

  unfoldable pub group_key : MemoryRow → GroupKey
  group_key r =
      if is_free r.attribute
      then free_group r.kind r.entity_id r.date_anchor r.recurrence (rules.content_norm r.content)
      else fact_group r r.entity_id

  abbrev pub grouped : MemoryItem → Option Date → Groups → Groups
  grouped item none groups = groups
  grouped item (some date) groups =
      add_to_group (group_key item.row) (record { item = item; occurrence = date }) groups

  unfoldable pub group_items : List MemoryItem → Date → Groups → Groups
  group_items [] today groups = groups
  group_items (item ∷ items) today groups =
      group_items items today (grouped item (next_occurrence item.row today) groups)

  -- (occurrence - today).days; an occurrence is not before today.
  abbrev pub days_until : Date → Occurrence → ℕ
  days_until today o = rules.day_number o.occurrence - rules.day_number today

  abbrev pub in_window : Date → ℕ → Occurrence → Bool
  in_window today default o = leb (days_until today o) (lead_days_of default o)

  -- The order of `key=lambda row: (row.occurrence, row.item.id)`
  abbrev pub sooner : Occurrence → Occurrence → Bool
  sooner a b =
      ltb (rules.day_number a.occurrence) (rules.day_number b.occurrence)
      || (rules.day_number a.occurrence == rules.day_number b.occurrence
          && ltb a.item.row.id b.item.row.id)

  unfoldable pub soonest : Occurrence → List Occurrence → Occurrence
  soonest best [] = best
  soonest best (o ∷ rest) = soonest (if sooner o best then o else best) rest
