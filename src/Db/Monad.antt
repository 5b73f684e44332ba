-- ===== src/Db/Monad.antt =====
-- A method on an open connection: what it wrote before an exception stays written, and the
-- transaction of src/proactive_mcp/store/_sqlite_transaction.py takes that back.
use proactive_mcp.Prelude.{◌≡◌, refl, sym, ap, subst, ◌∙◌}
use proactive_mcp.Db.Tables.{Db, StoreError}

pub data Outcome {ℓ} (A : Type ℓ) : Type ℓ where
  returned : A → Outcome A
  raised : StoreError → Outcome A

abbrev pub Session : Type 0 → Type 0
Session A = Db → Outcome A × Db

unfoldable pub pure : {A : Type 0} → A → Session A
pure a db = (returned a, db)

unfoldable pub raise : {A : Type 0} → StoreError → Session A
raise e db = (raised e, db)

-- A SELECT.
unfoldable pub query : {A : Type 0} → (Db → A) → Session A
query f db = (returned (f db), db)

-- A statement that writes.
unfoldable pub execute : (Db → Db) → Session Unit
execute f db = (returned tt, f db)

abbrev pub followed_by : {A B : Type 0} → Outcome A × Db → (A → Session B) → Outcome B × Db
followed_by (returned a, db) f = f a db
followed_by (raised e, db) f = (raised e, db)

infixl 5 ◌>>=◌ ◌>>◌
unfoldable pub ◌>>=◌ : {A B : Type 0} → Session A → (A → Session B) → Session B
unfolding pure raise query execute
◌>>=◌ m f db = followed_by (m db) f

abbrev pub ◌>>◌ : {B : Type 0} → Session Unit → Session B → Session B
m >> k = m >>= λ _. k

-- A block that returned went on with what its first step returned.
pub bind-returned :
    {A B : Type 0} (m : Session A) (f : A → Session B) (db : Db) (b : B)
    → ((m >>= f) db).0 ≡ returned b
    → (a : A) × ((m db).0 ≡ returned a) × ((m >>= f) db ≡ f a (m db).1)
unfolding ◌>>=◌
bind-returned {A} {B} m f db b h = continued (m db) h
  where
    continued :
        (r : Outcome A × Db)
        → (followed_by r f).0 ≡ returned b
        → (a : A) × (r.0 ≡ returned a) × (followed_by r f ≡ f a r.1)
    continued (returned a, db') h' = (a, refl, refl)
    continued (raised e, db') h' = absurd (cc)

-- A property of what a block leaves follows from what its first step returned.
pub through :
    {A B : Type 0} (P : Db → Type 0) (m : Session A) (f : A → Session B) (db : Db) (b : B)
    → ((m >>= f) db).0 ≡ returned b
    → ((a : A) → (m db).0 ≡ returned a → (f a (m db).1).0 ≡ returned b → P (f a (m db).1).1)
    → P ((m >>= f) db).1
through P m f db b e k =
    let (a, first, rest) = bind-returned m f db b e in
    subst (λ o. P o.1) (sym rest) (k a first (ap (λ o. o.0) (sym rest) ∙ e))

pub through_query :
    {A B : Type 0} (P : Db → Type 0) (g : Db → A) (f : A → Session B) (db : Db) (b : B)
    → ((query g >>= f) db).0 ≡ returned b
    → ((f (g db) db).0 ≡ returned b → P (f (g db) db).1)
    → P ((query g >>= f) db).1
unfolding query ◌>>=◌
through_query P g f db b e k = k e

-- What neither part of a block changes, the block does not change.
pub bind_fixes {ℓ} :
    {A B : Type 0} {X : Type ℓ} (g : Db → X) (m : Session A) (f : A → Session B) (db : Db)
    → g (m db).1 ≡ g db
    → ((a : A) (d : Db) → g (f a d).1 ≡ g d)
    → g ((m >>= f) db).1 ≡ g db
unfolding ◌>>=◌
bind_fixes {A} {B} g m f db fixed later = continued (m db) fixed
  where
    continued : (r : Outcome A × Db) → g r.1 ≡ g db → g (followed_by r f).1 ≡ g db
    continued (returned a, db') e = later a db' ∙ e
    continued (raised x, db') e = e

-- `try: m finally: cleanup`; an exception of the cleanup takes the place of the outcome.
abbrev pub after_cleanup : {A : Type 0} → Outcome A → Outcome (Unit {0}) × Db → Outcome A × Db
after_cleanup o (returned u, db) = (o, db)
after_cleanup o (raised e, db) = (raised e, db)

unfoldable pub finally : {A : Type 0} → Session A → Session Unit → Session A
finally m cleanup db = after_cleanup (m db).0 (cleanup (m db).1)

-- `with ImmediateTransaction(connection): body`
settle : {A : Type 0} → Db → Outcome A × Db → Outcome A × Db
settle before (returned a, db) = (returned a, db)
settle before (raised e, db) = (raised e, before)

unfoldable pub transaction : {A : Type 0} → Session A → Session A
unfolding settle
transaction body db = settle db (body db)

-- A property of every result of the body that returns, and of the old database, is one of the
-- database after the transaction.
pub transaction_keeps :
    {A : Type 0} (P : Db → Type 0) (body : Session A) (db : Db)
    → P db
    → ((a : A) → (body db).0 ≡ returned a → P (body db).1)
    → P (transaction body db).1
unfolding transaction
transaction_keeps {A} P body db old new = settled (body db) new
  where
    settled : (r : Outcome A × Db) → ((a : A) → r.0 ≡ returned a → P r.1) → P (settle db r).1
    settled (returned a, db') h = h a refl
    settled (raised e, db') h = old

-- What returned was committed.
pub transaction-returned :
    {A : Type 0} (body : Session A) (db : Db) (a : A)
    → (transaction body db).0 ≡ returned a
    → transaction body db ≡ body db
unfolding transaction
transaction-returned {A} body db a = settled (body db)
  where
    settled : (r : Outcome A × Db) → (settle db r).0 ≡ returned a → settle db r ≡ r
    settled (returned b, db') h = refl
    settled (raised e, db') h = absurd (cc)

-- What the body returned is what the transaction returns.
pub transaction_commits :
    {A : Type 0} (body : Session A) (db : Db) (a : A) (after : Db)
    → body db ≡ (returned a, after)
    → transaction body db ≡ (returned a, after)
unfolding transaction
transaction_commits body db a after h = rw h refl

-- An exception is no result.
pub raise-returned :
    {A : Type 0} (e : StoreError) (db : Db) (a : A) → ¬ ((raise e db).0 ≡ returned a)
unfolding raise
raise-returned e db a h = cc
