-- ===== src/Situations/Upsert/Resolution.antt =====
-- The loop of `resolve` and `resolve_by_source_ids`, one UPDATE for each row that a query gave, is
-- one UPDATE of the table by the query's test.
use mathlib.Core.List.{append_assoc}
use native.Mathlib.Nat.{zero-add}
use proactive_mcp.Prelude.{
  ℕ, ◌≤◌, ◌<◌, ◌≡◌, refl, String, Bool, true, false, not, ◌&&◌, ◌||◌, Option, some, List, [], ◌∷◌,
  ◌++◌, arith, All, All-append, select_where, count_where, contains, Bool-cases, inl, inr, ==_refl,
}
use proactive_mcp.Model.Situation.{Situation, SituationType, SituationSource, is_open}
use proactive_mcp.Db.{Db, returned, pure, ◌>>=◌, update_id, update_where}
use proactive_mcp.Situations.Statements.{resolve}
use proactive_mcp.Situations.Reader.{active_test, active_by_type}
use proactive_mcp.Situations.Lifecycle.Keys.{Ascending, WellFormed}
use proactive_mcp.Situations.Access.{update_row}
use proactive_mcp.Situations.Upsert.{
  resolve_row, resolve_each, resolve_all, resolve_by_source_ids, fact, outside,
}

-- The rows before the one with the id are passed over.
update_id-append :
    (test : Situation → Bool) (change : Situation → Situation) (m : ℕ) (before : List Situation)
    (s : Situation) (rest : List Situation)
    → All (λ r. r.id ≤ m) before
    → m < s.id
    → test s ≡ true
    → update_id s.id test change (before ++ s ∷ rest) ≡ some (before ++ change s ∷ rest)
unfolding update_id
update_id-append test change m [] s rest low high pass = ground (arith, ==_refl s.id)
update_id-append test change m (r ∷ before) s rest low high pass =
    ground (arith, update_id-append test change m before s rest low.1 high pass)

module _ (test keep : Situation → Bool) (now : ℕ)
    (opens : (s : Situation) → test s ≡ true → is_open s.state ≡ true) where
  abbrev closes : Situation → Bool
  closes s = test s && not (keep s)

  module _ (db : Db) where
    abbrev rows_at : List Situation → Db
    rows_at rows = record db { situations = rows }

    abbrev Finishes : List Situation → List Situation → Type 0
    Finishes before rest =
        resolve_each keep now (select_where test rest) (rows_at (before ++ rest)) ≡ (
          returned (count_where closes rest),
          rows_at (before ++ update_where closes (resolve now) rest),
        )

    -- A row that the test leaves out, or that the loop keeps.
    pass_by :
        (before : List Situation) (s : Situation) (rest : List Situation)
        → closes s ≡ false
        → Finishes (before ++ s ∷ []) rest
        → Finishes before (s ∷ rest)
    unfolding resolve_each update_where
    pass_by before s rest stays ih =
        let ih' = simp append_assoc at ih in
        elim (Bool-cases (test s)) [
          | inl pass ↦ let kept : keep s ≡ true = ground arith in rw (pass, kept) (rw zero-add ih')
          | inr fail ↦ rw fail (rw zero-add ih')
        ]

    -- A row that the loop closes.
    close_row :
        (m : ℕ) (before : List Situation) (s : Situation) (rest : List Situation)
        → All (λ r. r.id ≤ m) before
        → m < s.id
        → closes s ≡ true
        → Finishes (before ++ resolve now s ∷ []) rest
        → Finishes before (s ∷ rest)
    unfolding resolve_each resolve_row update_row update_where ◌>>=◌
    close_row m before s rest low high closed ih =
        let ih' = simp append_assoc at ih in
        let pass : test s ≡ true = ground arith in
        let kept : keep s ≡ false = ground arith in
        rw (pass, kept)
          (rw
            (update_id-append (λ r. is_open r.state) (resolve now) m before s rest low high
              (opens s pass))
            (rw ih' refl))

    -- The loop over the rest of the table, with the part before it done.
    resolve_each-from :
        (m : ℕ) (before rest : List Situation)
        → All (λ r. r.id ≤ m) before
        → Ascending m rest
        → Finishes before rest
    resolve_each-from m before [] low up = unfold resolve_each update_where pure in refl
    resolve_each-from m before (s ∷ rest) low up = elim (Bool-cases (closes s)) [
      | inl closed ↦ close_row m before s rest low up.0 closed (
          resolve_each-from s.id (before ++ resolve now s ∷ []) rest
            (behind (resolve now s) (unfold resolve in refl)) up.1)
      | inr stays ↦
          pass_by before s rest stays
            (resolve_each-from s.id (before ++ s ∷ []) rest (behind s refl) up.1)
    ]
      where
        behind : (r : Situation) → r.id ≡ s.id → All (λ q. q.id ≤ s.id) (before ++ r ∷ [])
        behind r e =
            All-append (λ q. q.id ≤ s.id) before (r ∷ []) (raise_bound before low) (omega arith, tt)
          where
            raise_bound :
                (rows : List Situation) → All (λ q. q.id ≤ m) rows → All (λ q. q.id ≤ s.id) rows
            raise_bound [] h = tt
            raise_bound (q ∷ rows) h = (omega arith, raise_bound rows h.1)

active-is_open :
    (kind : SituationType) (source : Option SituationSource) (s : Situation)
    → active_test kind source s ≡ true
    → is_open s.state ≡ true
active-is_open kind source s h = ground arith

-- An open row of the type and source whose key is not among the present ones.
abbrev pub absent : SituationType → Option SituationSource → List String → Situation → Bool
absent kind source present s = active_test kind source s && not (contains s.dedupe_key present)

-- Of those, the rows with a thread id on the asked side of `ids`.
abbrev pub absent_in_scope :
    SituationType → Option SituationSource → List String → List String → Bool → Situation → Bool
absent_in_scope kind source present ids include s =
    active_test kind source s
    && not
        (contains s.dedupe_key present || outside ids include (fact "thread_id" s.evidence.facts))

-- On a well-formed table, `resolve` closes at `now` the rows of the type and source that are
-- pending or delivered and whose key is not among the present ones, leaves every other row and
-- table as it is, and returns how many rows it closed.
pub resolve_all_lem :
    (kind : SituationType) (present : List String) (now : ℕ) (source : Option SituationSource)
    (db : Db)
    → WellFormed db.situations
    → resolve_all kind present now source db ≡ (
      returned (count_where (absent kind source present) db.situations),
      record db {
        situations = update_where (absent kind source present) (resolve now) db.situations;
      },
    )
unfolding resolve_all ◌>>=◌ active_by_type
resolve_all_lem kind present now source db w =
    resolve_each-from (active_test kind source) (λ s. contains s.dedupe_key present) now
      (active-is_open kind source) db 0 [] db.situations tt w.ids

-- On a well-formed table, `resolve_by_source_ids` closes, of the rows that `resolve` would close,
-- those with a thread id that is in `ids` if `include` holds and not in `ids` otherwise; it leaves
-- every other row and table as it is, and returns how many rows it closed.
pub resolve_by_source_ids_lem :
    (kind : SituationType) (present ids : List String) (now : ℕ) (include : Bool)
    (source : Option SituationSource) (db : Db)
    → WellFormed db.situations
    → resolve_by_source_ids kind present ids now include source db ≡ (
      returned (count_where (absent_in_scope kind source present ids include) db.situations),
      record db {
        situations =
            update_where
              (absent_in_scope kind source present ids include)
              (resolve now)
              db.situations;
      },
    )
unfolding resolve_by_source_ids ◌>>=◌ active_by_type
resolve_by_source_ids_lem kind present ids now include source db w =
    resolve_each-from (active_test kind source)
      (λ s.
        contains s.dedupe_key present || outside ids include (fact "thread_id" s.evidence.facts))
      now (active-is_open kind source) db 0 [] db.situations tt w.ids

absent-resolve :
    (kind : SituationType) (source : Option SituationSource) (present : List String) (now : ℕ)
    (s : Situation)
    → absent kind source present (resolve now s) ≡ false
unfolding resolve
absent-resolve kind source present now s = ground arith

-- Nothing absent is left open.
pub absent-update_where :
    (kind : SituationType) (source : Option SituationSource) (present : List String) (now : ℕ)
    (rows : List Situation)
    → All
        (λ s. absent kind source present s ≡ false)
        (update_where (absent kind source present) (resolve now) rows)
unfolding update_where
absent-update_where kind source present now [] = tt
absent-update_where kind source present now (s ∷ rows) =
    elim (Bool-cases (absent kind source present s)) [
      | inl gone ↦ rw gone (
        absent-resolve kind source present now s,
        absent-update_where kind source present now rows,
      )
      | inr kept ↦ rw kept (kept, absent-update_where kind source present now rows)
    ]
