-- ===== src/Sources/Generations/Order.antt =====
-- Generations are issued in order, and an older one is never applied over a newer one.
use proactive_mcp.Prelude.{ℕ, ◌+◌, ◌≤◌, ◌<◌, ◌≡◌, refl, Option, arith}
use proactive_mcp.Model.Source.{
  SourceName, gmail, calendar, SourceGeneration, SourceGenerationState, SourceGenerationStatus,
}
use proactive_mcp.Db.{Db, delayed_generation, returned, raised, transaction, ◌>>=◌}
use proactive_mcp.Situations.Lifecycle.History.{
  History, History-unchanged, Advances, Advances-raise, Advances-query, Advances-pure,
  Advances-bind, Advances-execute, Advances-if, Advances-transaction,
}
use proactive_mcp.Sources.Generations.{
  generation_state, write_generation, reserve, accept, accept_row, may_accept,
}

-- applied_generation <= issued_generation, the CHECK of the table
abbrev pub IsOrdered : Db → Type 0
IsOrdered db =
    (source : SourceName)
    → (generation_state source db).applied ≤ (generation_state source db).issued

-- A number that was issued and is newer than the applied one is applied, and the issued number
-- stays.
pub accept_newer :
    (n : ℕ) (source : SourceName) (status : SourceGenerationStatus) (now : ℕ) (db : Db)
    → (generation_state source db).applied < n
    → n ≤ (generation_state source db).issued
    → ((accept (record { source = source; number = n }) status now db).0 ≡ returned tt)
      × ((generation_state source
            (accept (record { source = source; number = n }) status now db).1).applied
          ≡ n)
      × ((generation_state source
            (accept (record { source = source; number = n }) status now db).1).issued
          ≡ (generation_state source db).issued)
unfolding accept accept_row generation_state ◌>>=◌
accept_newer n gmail status now db newer issued = ground arith
accept_newer n calendar status now db newer issued = ground arith

-- A number once applied stays the newest: an equal or older result that comes later is refused and
-- changes nothing.
pub accept_order :
    (n m : ℕ) (source : SourceName) (status late : SourceGenerationStatus) (now then' : ℕ) (db : Db)
    → (accept (record { source = source; number = n }) status now db).0 ≡ returned tt
    → m ≤ n
    → let after = (accept (record { source = source; number = n }) status now db).1 in
      accept (record { source = source; number = m }) late then' after
      ≡ (raised (delayed_generation (record { source = source; number = m }) n), after)
unfolding accept accept_row ◌>>=◌
accept_order n m gmail status late now then' db done old = ground arith
accept_order n m calendar status late now then' db done old = ground arith

-- `reserve` issues the next number, which is newer than every number issued or applied before.
pub reserve_lem :
    (now : ℕ) (source : SourceName) (db : Db)
    → ((reserve now source db).0
        ≡ returned (record { source = source; number = (generation_state source db).issued + 1 }))
      × ((generation_state source (reserve now source db).1).issued
          ≡ (generation_state source db).issued + 1)
      × ((generation_state source (reserve now source db).1).applied
          ≡ (generation_state source db).applied)
unfolding reserve generation_state transaction ◌>>=◌
reserve_lem now gmail db = (refl, refl, refl)
reserve_lem now calendar db = (refl, refl, refl)

accept_keeps_order :
    (n : ℕ) (into source : SourceName) (status : SourceGenerationStatus) (now : ℕ) (db : Db)
    → (generation_state source db).applied ≤ (generation_state source db).issued
    → (generation_state source
        (accept (record { source = into; number = n }) status now db).1).applied
      ≤ (generation_state source
          (accept (record { source = into; number = n }) status now db).1).issued
unfolding accept accept_row generation_state ◌>>=◌
accept_keeps_order n gmail gmail status now db h = ground arith
accept_keeps_order n gmail calendar status now db h = ground arith
accept_keeps_order n calendar gmail status now db h = ground arith
accept_keeps_order n calendar calendar status now db h = ground arith

-- If neither source has applied a number that it did not issue, neither has after `accept`, whatever
-- its result.
pub accept-IsOrdered :
    (g : SourceGeneration) (status : SourceGenerationStatus) (now : ℕ) (db : Db)
    → IsOrdered db
    → IsOrdered (accept g status now db).1
accept-IsOrdered g status now db h source =
    accept_keeps_order g.number g.source source status now db (h source)

-- If neither source has applied a number that it did not issue, neither has after `reserve`.
pub reserve-IsOrdered :
    (now : ℕ) (source : SourceName) (db : Db) → IsOrdered db → IsOrdered (reserve now source db).1
unfolding reserve generation_state transaction ◌>>=◌
reserve-IsOrdered now gmail db h gmail = omega (arith, h gmail)
reserve-IsOrdered now gmail db h calendar = h calendar
reserve-IsOrdered now calendar db h gmail = h gmail
reserve-IsOrdered now calendar db h calendar = omega (arith, h calendar)

write_generation-History :
    (source : SourceName) (row : SourceGenerationState) (db : Db)
    → History db (write_generation source row db)
write_generation-History gmail row db = History-unchanged db _ refl refl refl refl (λ l. l)
write_generation-History calendar row db = History-unchanged db _ refl refl refl refl (λ l. l)

pub reserve-Advances : (now : ℕ) (source : SourceName) → Advances (reserve now source)
unfolding reserve
reserve-Advances now source = Advances-transaction _ (
    Advances-bind _ _ (Advances-execute _ (λ db. write_generation-History source _ db))
      λ _. Advances-bind _ _ (Advances-query _) λ state. Advances-pure _)

pub accept-Advances :
    (g : SourceGeneration) (status : SourceGenerationStatus) (now : ℕ)
    → Advances (accept g status now)
unfolding accept accept_row
accept-Advances g status now = Advances-bind _ _ (Advances-query _) by_row
  where
    by_row : (row : Option SourceGenerationState) → Advances (accept_row g status now row)
    by_row row =
        Advances-if (may_accept g.number row) _ _
          (Advances-execute _ (λ db. write_generation-History g.source _ db))
          (Advances-if _ _ _ (Advances-raise _) (Advances-raise _))
