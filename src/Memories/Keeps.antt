-- ===== src/Memories/Keeps.antt =====
-- The writing methods of the memory store keep the unique indexes.
use proactive_mcp.Prelude.{
  ℕ, ◌≡◌, refl, String, Bool, true, false, not, Option, none, some, List, arith, All, All-map,
  Bool-cases, inl, inr, ◌==◌, leb, if◌then◌else◌,
}
use proactive_mcp.Model.Memory.{NewMemory, Entity, EntityKind, MemoryRow}
use proactive_mcp.Db.{
  Db, StoreError, followed_by, Outcome, returned, raised, Session, pure, raise, query, execute,
  transaction, transaction_keeps, ◌>>=◌,
}
use proactive_mcp.Memories.Rules.{TextRules, normalize_path, entity_aliases, new_memory_error}
use proactive_mcp.Memories.Entities.{
  create_unless, create_entity, same_kind, found_or_created, resolve_labelled, with_normalized,
  with_path, with_kind, with_label, resolve_entity,
}
use proactive_mcp.Memories.Items.{
  require_entity_capacity, require_memory, or_not_found, lookup_key, key_of, update_memory, touched,
  inserted_row, replaced_row, archived_row, insert_memory, merge_or_insert, remember_body, remember,
  replace_unless, update_body, update, archive, forget, validated, next_memory_id, active_count,
  max_memory_rows,
}
use proactive_mcp.Memories.Unique.{IsSound, IsSound-append, lookup-clashes, clashes}
use proactive_mcp.Memories.Changes.{IsSound-weaken, IsSound-replace}

abbrev pub Sound : Db → Type 0
Sound db = IsSound db.memory_items

-- A method that keeps what is said of the memories, whether it returns or raises.
pub record Keeps (P : List MemoryRow → Type 0) {A : Type 0} (m : Session A) : Type 0 where
  pub at : (db : Db) → P db.memory_items → P (m db).1.memory_items

Keeps-pure : {P : List MemoryRow → Type 0} {A : Type 0} (a : A) → Keeps P (pure a)
unfolding pure
Keeps-pure a = record { at = λ db s. s }

Keeps-raise :
    {P : List MemoryRow → Type 0} {A : Type 0} (e : StoreError) → Keeps P (raise {A = A} e)
unfolding raise
Keeps-raise e = record { at = λ db s. s }

Keeps-query : {P : List MemoryRow → Type 0} {A : Type 0} (f : Db → A) → Keeps P (query f)
unfolding query
Keeps-query f = record { at = λ db s. s }

Keeps-execute :
    {P : List MemoryRow → Type 0} (f : Db → Db)
    → ((db : Db) → P db.memory_items → P (f db).memory_items)
    → Keeps P (execute f)
unfolding execute
Keeps-execute f h = record { at = h }

Keeps-items :
    {P : List MemoryRow → Type 0} (g : List MemoryRow → List MemoryRow)
    → ((rows : List MemoryRow) → P rows → P (g rows))
    → Keeps P (execute (λ db. record db { memory_items = g db.memory_items }))
Keeps-items g h = Keeps-execute _ (λ db s. h db.memory_items s)

Keeps-bind :
    {P : List MemoryRow → Type 0} {A B : Type 0} (m : Session A) (f : A → Session B)
    → Keeps P m
    → ((a : A) → Keeps P (f a))
    → Keeps P (m >>= f)
unfolding ◌>>=◌
Keeps-bind {P} {A} {B} m f hm hf = record { at = λ db s. continued (m db) (hm.at db s) }
  where
    continued : (r : Outcome A × Db) → P r.1.memory_items → P (followed_by r f).1.memory_items
    continued (returned a, db') h = (hf a).at db' h
    continued (raised e, db') h = h

Keeps-if :
    {P : List MemoryRow → Type 0} {A : Type 0} (b : Bool) (m n : Session A)
    → Keeps P m
    → Keeps P n
    → Keeps P (if b then m else n)
Keeps-if true m n hm hn = hm
Keeps-if false m n hm hn = hn

Keeps-transaction :
    {P : List MemoryRow → Type 0} {A : Type 0} (m : Session A) → Keeps P m → Keeps P (transaction m)
Keeps-transaction {P} m h = record {
  at = λ db s. transaction_keeps (λ d. P d.memory_items) m db s (λ a _. h.at db s);
}

-- A read and what follows it, on the database that was read.
Keeps-read :
    {P : List MemoryRow → Type 0} {A B : Type 0} (f : Db → A) (k : A → Session B)
    → ((db : Db) → P db.memory_items → P (k (f db) db).1.memory_items)
    → Keeps P (query f >>= k)
unfolding query ◌>>=◌
Keeps-read f k h = record { at = h }

ruleset keeping = (Keeps-pure, Keeps-raise, Keeps-query, Keeps-bind, Keeps-if, Keeps-transaction)

require_memory-Keeps : {P : List MemoryRow → Type 0} (i : ℕ) → Keeps P (require_memory i)
unfolding require_memory
require_memory-Keeps {P} i = Keeps-bind _ _ (Keeps-query _) found
  where
    found : (o : Option MemoryRow) → Keeps P (or_not_found i o)
    found none = Keeps-raise _
    found (some r) = Keeps-pure r

pub require_entity_capacity-Keeps : {P : List MemoryRow → Type 0} → Keeps P require_entity_capacity
unfolding require_entity_capacity
require_entity_capacity-Keeps = search keeping depth 6

module _ (rules : TextRules) where
  create_entity-Keeps :
      {P : List MemoryRow → Type 0} (m : NewMemory) (kind : EntityKind) (label : String)
      (path : Option (List String)) (now : ℕ)
      → Keeps P (create_entity rules m kind label path now)
  unfolding create_entity
  create_entity-Keeps {P} m kind label path now = Keeps-bind _ _ (Keeps-query _) unless
    where
      unless :
          (o : Option String)
          → Keeps P
              (create_unless rules kind path label (entity_aliases rules label path) m.source now o)
      unless (some alias) = Keeps-raise _
      unless none =
          Keeps-bind _ _ (Keeps-query _)
            λ i. Keeps-bind _ _ (Keeps-execute _ (λ db s. s)) λ _. Keeps-pure _

  resolve_labelled-Keeps :
      {P : List MemoryRow → Type 0} (m : NewMemory) (kind : EntityKind) (label : String)
      (path : Option (List String)) (now : ℕ)
      → Keeps P (resolve_labelled rules m kind label path now)
  unfolding resolve_labelled
  resolve_labelled-Keeps {P} m kind label path now = Keeps-bind _ _ (Keeps-query _) found
    where
      same : (e : Option Entity) → Keeps P (same_kind rules kind e)
      same none = Keeps-raise _
      same (some e) = search keeping depth 6

      found : (o : Option ℕ) → Keeps P (found_or_created rules m kind label path now o)
      found none = create_entity-Keeps m kind label path now
      found (some i) = Keeps-bind _ _ (Keeps-query _) same

  pub resolve_entity-Keeps :
      {P : List MemoryRow → Type 0} (m : NewMemory) (now : ℕ) → Keeps P (resolve_entity rules m now)
  unfolding resolve_entity
  resolve_entity-Keeps {P} m now = labelled m.entity
    where
      normal :
          (kind : EntityKind) (label : String) (o : Option (List String))
          → Keeps P (with_normalized rules m kind label now o)
      normal kind label none = Keeps-raise _
      normal kind label (some path) = resolve_labelled-Keeps m kind label (some path) now

      pathed :
          (kind : EntityKind) (label : String) (o : Option (List String))
          → Keeps P (with_path rules m kind label now o)
      pathed kind label none = resolve_labelled-Keeps m kind label none now
      pathed kind label (some path) = normal kind label (normalize_path rules path)

      kinded : (label : String) (o : Option EntityKind) → Keeps P (with_kind rules m label now o)
      kinded label none = Keeps-raise _
      kinded label (some kind) = pathed kind label m.entity_path

      labelled : (o : Option String) → Keeps P (with_label rules m now o)
      labelled none = search keeping depth 6
      labelled (some name) =
          Keeps-if _ _ _ (Keeps-raise _) (kinded (rules.stripped name) m.entity_kind)

  -- An INSERT after a lookup that found nothing
  insert_memory-Sound :
      (m : NewMemory) (entity : Option Entity) (now : ℕ) (db : Db)
      → lookup_key (λ r. true) (key_of rules m entity) db.memory_items ≡ none
      → Sound db
      → Sound (insert_memory rules m entity now db).1
  unfolding insert_memory query execute ◌>>=◌
  insert_memory-Sound m entity now db e s =
      (require_memory-Keeps {P = IsSound} (next_memory_id db.memory_items)).at _ (
        IsSound-append db.memory_items
          (inserted_row rules (next_memory_id db.memory_items) m entity now) refl
          (All-map _ _ db.memory_items (λ r h. h refl)
            (lookup-clashes (λ r. true)
              (inserted_row rules (next_memory_id db.memory_items) m entity now) db.memory_items e))
          s)

  merge_or_insert-Sound :
      (m : NewMemory) (entity : Option Entity) (now : ℕ) (db : Db) (o : Option ℕ)
      → lookup_key (λ r. true) (key_of rules m entity) db.memory_items ≡ o
      → Sound db
      → Sound (merge_or_insert rules m entity now o db).1
  unfolding merge_or_insert raise query ◌>>=◌ clashes
  merge_or_insert-Sound m entity now db none e s =
      elim (Bool-cases (leb max_memory_rows (active_count db))) [
        | inl full ↦ rw full s
        | inr room ↦ rw room (insert_memory-Sound m entity now db e s)
      ]
  merge_or_insert-Sound m entity now db (some i) e s =
      (Keeps-bind {P = IsSound}
          (execute (λ d. record d { memory_items = update_memory i (touched now) d.memory_items }))
          (λ _. require_memory i)
          (Keeps-items (update_memory i (touched now))
            (IsSound-weaken i (touched now) (λ r. refl) (λ r x h. h)))
          (λ _. require_memory-Keeps i)).at
        db s

  pub remember-Keeps : (m : NewMemory) (now : ℕ) → Keeps IsSound (remember rules m now)
  unfolding remember remember_body
  remember-Keeps m now = Keeps-bind _ _ (checked (new_memory_error rules m)) λ _.
      Keeps-transaction _ (
        Keeps-bind _ _ (resolve_entity-Keeps m now) λ entity.
          Keeps-bind _ _ require_entity_capacity-Keeps
            λ _. Keeps-read _ _ λ db s. merge_or_insert-Sound m entity now db _ refl s)
    where
      checked : (o : Option String) → Keeps IsSound (validated o)
      checked none = Keeps-pure _
      checked (some field) = Keeps-raise _

  -- An UPDATE after a lookup that found no other row
  replace_unless-Sound :
      (i : ℕ) (m : NewMemory) (entity : Option Entity) (now : ℕ) (db : Db) (o : Option ℕ)
      → lookup_key (λ r. not (r.id == i)) (key_of rules m entity) db.memory_items ≡ o
      → Sound db
      → Sound (replace_unless rules i m entity now o db).1
  unfolding raise execute ◌>>=◌ clashes
  replace_unless-Sound i m entity now db (some j) e s = s
  replace_unless-Sound i m entity now db none e s =
      (require_memory-Keeps {P = IsSound} i).at
        (record db {
          memory_items = update_memory i (replaced_row rules m entity now) db.memory_items;
        })
        (IsSound-replace i (replaced_row rules m entity now) (λ r. refl) db.memory_items others s)
    where
      clear :
          (r x : MemoryRow)
          → (not (x.id == i) ≡ true → clashes (inserted_row rules i m entity now) x ≡ false)
          → (x.id == i) ≡ false
          → clashes (replaced_row rules m entity now r) x ≡ false
      clear r x h other = let free = h (ground arith) in ground arith

      others :
          (r : MemoryRow)
          → All
              (λ x. (x.id == i) ≡ false → clashes (replaced_row rules m entity now r) x ≡ false)
              db.memory_items
      others r = All-map _ _ db.memory_items (clear r) (
          lookup-clashes (λ q. not (q.id == i)) (inserted_row rules i m entity now) db.memory_items
            e)

  pub update-Keeps : (i : ℕ) (m : NewMemory) (now : ℕ) → Keeps IsSound (update rules i m now)
  unfolding update update_body
  update-Keeps i m now = Keeps-bind _ _ (checked (new_memory_error rules m)) λ _.
      Keeps-transaction _ (
        Keeps-bind _ _ (require_memory-Keeps i) λ existing.
          Keeps-bind _ _ (resolve_entity-Keeps m now) λ entity.
            Keeps-bind _ _ require_entity_capacity-Keeps
              λ _. Keeps-read _ _ λ db s. replace_unless-Sound i m entity now db _ refl s)
    where
      checked : (o : Option String) → Keeps IsSound (validated o)
      checked none = Keeps-pure _
      checked (some field) = Keeps-raise _

pub forget-Keeps : (i now : ℕ) → Keeps IsSound (forget i now)
unfolding forget clashes
forget-Keeps i now = Keeps-bind _ _ (require_memory-Keeps i) archived
  where
    archived : (r : MemoryRow) → Keeps IsSound (archive now r)
    archived r = Keeps-if r.archived _ _ (Keeps-pure r) (
        Keeps-bind _ _
          (Keeps-items (update_memory r.id (archived_row now))
            (IsSound-weaken r.id (archived_row now) (λ q. refl) (λ q x h. absurd (cc))))
          (λ _. Keeps-pure _))
