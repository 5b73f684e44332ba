-- ===== src/Situations/Lifecycle/History.antt =====
-- What a method may do to the whole database: rows live on, and the delivery history and the
-- confirmed receipts only grow (the triggers of migrations/*.sql refuse anything else), no
-- situation comes under two leases, and a fallback record settles once.
use proactive_mcp.Prelude.{◌≡◌, sym, ◌∙◌, ap, Bool, true, false, if◌then◌else◌, List, [], ◌++◌}
use mathlib.Core.List.{append-nil, append_assoc}
use proactive_mcp.Db
use proactive_mcp.Db.{
  Db, StoreError, Outcome, returned, raised, Session, pure, raise, query, execute, transaction,
  ◌>>=◌, transaction_keeps, LeasedOnce, FallbackHistory, FallbackHistory-refl,
  FallbackHistory-trans,
}
use proactive_mcp.Model.Situation.{Situation}
use proactive_mcp.Situations.Lifecycle.Keys.{WellFormed}
use proactive_mcp.Situations.Lifecycle.Table.{Evolves, Evolves-refl, Evolves-trans}

pub data Grows {ℓ} {A : Type ℓ} (xs ys : List A) : Type ℓ where
  by : (more : List A) → ys ≡ xs ++ more → Grows xs ys

pub Grows-refl {ℓ} : {A : Type ℓ} (xs : List A) → Grows xs xs
Grows-refl xs = by [] (sym (append-nil xs))

Grows-trans {ℓ} : {A : Type ℓ} {xs ys zs : List A} → Grows xs ys → Grows ys zs → Grows xs zs
Grows-trans {xs = xs} (by more e) (by rest f) =
    by (more ++ rest) (f ∙ ap (λ l. l ++ rest) e ∙ append_assoc xs more rest)

pub record History (before after : Db) : Type 0 where
  pub rows : Evolves before.situations after.situations
  pub deliveries : Grows before.deliveries after.deliveries
  pub receipts : Grows before.receipts after.receipts
  pub fallbacks : FallbackHistory before.fallbacks after.fallbacks
  pub well_formed : WellFormed before.situations → WellFormed after.situations
  pub leased : LeasedOnce before.leases → LeasedOnce after.leases

pub History-refl : (db : Db) → History db db
History-refl db = record {
  rows = Evolves-refl db.situations;
  deliveries = Grows-refl db.deliveries;
  receipts = Grows-refl db.receipts;
  fallbacks = FallbackHistory-refl db.fallbacks;
  well_formed = λ w. w;
  leased = λ l. l;
}

-- Writes to the other tables do not show.
pub History-unchanged :
    (a b : Db)
    → b.situations ≡ a.situations
    → b.deliveries ≡ a.deliveries
    → b.receipts ≡ a.receipts
    → b.fallbacks ≡ a.fallbacks
    → (LeasedOnce a.leases → LeasedOnce b.leases)
    → History a b
History-unchanged a b rows deliveries receipts fallbacks leased = record {
  rows = rw rows (Evolves-refl a.situations);
  deliveries = rw deliveries (Grows-refl a.deliveries);
  receipts = rw receipts (Grows-refl a.receipts);
  fallbacks = rw fallbacks (FallbackHistory-refl a.fallbacks);
  well_formed = λ w. rw rows w;
  leased = leased;
}

pub History-trans : {a b c : Db} → History a b → History b c → History a c
History-trans {a} {b} {c} h k = record {
  rows = Evolves-trans a.situations b.situations c.situations h.rows k.rows;
  deliveries = Grows-trans h.deliveries k.deliveries;
  receipts = Grows-trans h.receipts k.receipts;
  fallbacks = FallbackHistory-trans h.fallbacks k.fallbacks;
  well_formed = λ w. k.well_formed (h.well_formed w);
  leased = λ l. k.leased (h.leased l);
}

-- A write to the situation table alone.
pub History-rows :
    (db : Db) (rows : List Situation)
    → Evolves db.situations rows
    → (WellFormed db.situations → WellFormed rows)
    → History db (record db { situations = rows })
History-rows db rows e w = record {
  rows = e;
  deliveries = Grows-refl db.deliveries;
  receipts = Grows-refl db.receipts;
  fallbacks = FallbackHistory-refl db.fallbacks;
  well_formed = w;
  leased = λ l. l;
}

-- A method that, on a well-formed table, keeps to the history, whether it returns or raises.
pub record Advances {A : Type 0} (m : Session A) : Type 0 where
  pub at : (db : Db) → WellFormed db.situations → History db (m db).1

pub Advances-pure : {A : Type 0} (a : A) → Advances (pure a)
unfolding pure
Advances-pure a = record { at = λ db w. History-refl db }

pub Advances-raise : {A : Type 0} (e : StoreError) → Advances (raise {A = A} e)
unfolding raise
Advances-raise e = record { at = λ db w. History-refl db }

pub Advances-query : {A : Type 0} (f : Db → A) → Advances (query f)
unfolding query
Advances-query f = record { at = λ db w. History-refl db }

pub Advances-execute : (f : Db → Db) → ((db : Db) → History db (f db)) → Advances (execute f)
unfolding execute
Advances-execute f h = record { at = λ db w. h db }

-- A bind, at one database.
pub History-bind :
    {A B : Type 0} (m : Session A) (f : A → Session B) (db : Db)
    → WellFormed db.situations
    → History db (m db).1
    → ((a : A) → Advances (f a))
    → History db ((m >>= f) db).1
unfolding ◌>>=◌
History-bind {A} {B} m f db w hm hf = continued (m db) hm
  where
    continued : (r : Outcome A × Db) → History db r.1 → History db (Db.followed_by r f).1
    continued (returned a, db') h = History-trans h ((hf a).at db' (h.well_formed w))
    continued (raised e, db') h = h

pub Advances-bind :
    {A B : Type 0} (m : Session A) (f : A → Session B)
    → Advances m
    → ((a : A) → Advances (f a))
    → Advances (m >>= f)
Advances-bind m f hm hf = record { at = λ db w. History-bind m f db w (hm.at db w) hf }

pub Advances-if :
    {A : Type 0} (b : Bool) (m n : Session A)
    → Advances m
    → Advances n
    → Advances (if b then m else n)
Advances-if true m n hm hn = hm
Advances-if false m n hm hn = hn

pub Advances-transaction : {A : Type 0} (m : Session A) → Advances m → Advances (transaction m)
Advances-transaction m h = record {
  at = λ db w. transaction_keeps (History db) m db (History-refl db) (λ a _. h.at db w);
}

pub ruleset history_rules = (
  Advances-pure, Advances-raise, Advances-query, Advances-bind, Advances-if, Advances-transaction,
)
