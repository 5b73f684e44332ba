-- ===== src/Memories/Rules.antt =====
-- src/proactive_mcp/store/_memory_normalize.py and `validate_new_memory` of _memory_models.py. What
-- they use of Python's text and date library is an argument.
use proactive_mcp.Prelude.{
  ℕ, ◌+◌, String, Bool, not, ◌&&◌, ◌||◌, Option, none, some, List, [], ◌∷◌, map, leb, if◌then◌else◌,
  str_eq, length, exists_where,
}
use proactive_mcp.Model.Memory.{
  NewMemory, kind_bytes, entity_kind_bytes, attribute_bytes, recurrence_bytes, source_bytes,
  is_yearly,
}

pub record TextRules : Type 0 where
  -- normalize("NFC", text).strip()
  pub stripped : String → String
  -- "".join(normalize("NFC", text).casefold().split())
  pub alias_norm : String → String
  -- " ".join(normalize("NFC", text).casefold().split())
  pub content_norm : String → String
  -- len(text.encode("utf-8"))
  pub byte_length : String → ℕ
  -- text.startswith("--")
  pub is_yearless : String → Bool
  -- date.fromisoformat accepts the anchor, with the year 2000 in a yearless one, and it is not the
  -- last day of the calendar
  pub is_date : String → Bool

-- The maxima of _memory_models.py
abbrev pub max_content_bytes : ℕ
max_content_bytes = 4096

abbrev pub max_entity_bytes : ℕ
max_entity_bytes = 256

abbrev pub max_entity_path_bytes : ℕ
max_entity_path_bytes = 512

abbrev pub max_date_anchor_bytes : ℕ
max_date_anchor_bytes = 10

abbrev pub max_record_bytes : ℕ
max_record_bytes = 5120

abbrev pub max_lead_days : ℕ
max_lead_days = 366

abbrev pub is_empty : String → Bool
is_empty s = str_eq s ""

-- The length of the segments joined by "/"
abbrev pub joined_bytes : (String → ℕ) → List String → ℕ
joined_bytes len [] = 0
joined_bytes len (s ∷ []) = len s
joined_bytes len (s ∷ t ∷ rest) = len s + 1 + joined_bytes len (t ∷ rest)

abbrev pub or_zero {ℓ} : {A : Type ℓ} → (A → ℕ) → Option A → ℕ
or_zero f none = 0
or_zero f (some a) = f a

abbrev pub first_error : Option String → Option String → Option String
first_error none next = next
first_error (some field) next = some field

abbrev pub check : Bool → String → Option String
check ok field = if ok then none else some field

module _ (rules : TextRules) where
  abbrev pub path_bytes : List String → ℕ
  path_bytes = joined_bytes rules.byte_length

  -- The date and its recurrence
  abbrev pub anchor_error : NewMemory → Option String → Option String
  anchor_error memory none = check (not (is_yearly memory.recurrence)) "date_anchor"
  anchor_error memory (some value) =
      check (rules.is_date value && (not (rules.is_yearless value) || is_yearly memory.recurrence))
        "date_anchor"

  unfoldable pub total_bytes : NewMemory → ℕ
  total_bytes memory =
      kind_bytes memory.kind
      + rules.byte_length memory.content
      + or_zero rules.byte_length memory.entity
      + or_zero entity_kind_bytes memory.entity_kind
      + or_zero path_bytes memory.entity_path
      + attribute_bytes memory.attribute
      + or_zero rules.byte_length memory.date_anchor
      + recurrence_bytes memory.recurrence
      + source_bytes memory.source

  -- validate_new_memory: the field of the first error, in the order of the checks
  unfoldable pub new_memory_error : NewMemory → Option String
  new_memory_error memory = first_error (anchor_error memory memory.date_anchor) (
      first_error (check (leb (rules.byte_length memory.content) max_content_bytes) "content") (
        first_error
          (check (leb (or_zero rules.byte_length memory.entity) max_entity_bytes) "entity")
          (first_error
            (check (leb (or_zero path_bytes memory.entity_path) max_entity_path_bytes)
              "entity_path")
            (first_error
              (check (leb (or_zero rules.byte_length memory.date_anchor) max_date_anchor_bytes)
                "date_anchor")
              (first_error (check (leb (total_bytes memory) max_record_bytes) "record")
                (check (leb memory.lead_days max_lead_days) "lead_days"))))))

  -- normalize_path: 1 to 3 segments, none of them empty
  unfoldable pub normalize_path : List String → Option (List String)
  normalize_path segments =
      if leb 1 (length segments)
        && leb (length segments) 3
        && not (exists_where (λ s. is_empty (rules.stripped s)) segments)
      then some (map rules.stripped segments)
      else none

  abbrev pub leaf_of : String → List String → String
  leaf_of default [] = default
  leaf_of default (s ∷ rest) = leaf_of s rest

  abbrev pub label_and_leaf : String → String → List String
  label_and_leaf label leaf =
      if str_eq (rules.alias_norm label) (rules.alias_norm leaf)
      then label ∷ []
      else label ∷ leaf ∷ []

  -- entity_aliases: the label, and the last segment of the path if it is another alias
  unfoldable pub entity_aliases : String → Option (List String) → List String
  entity_aliases label none = label ∷ []
  entity_aliases label (some path) = label_and_leaf label (leaf_of "" path)
