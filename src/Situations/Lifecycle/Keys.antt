-- ===== src/Situations/Lifecycle/Keys.antt =====
-- The table's keys: ids rise from row to row, no dedupe key stands twice, and the table holds at
-- most 10,000 rows (the primary key, the UNIQUE constraint and _MAX_SITUATION_ROWS).
use proactive_mcp.Prelude.{
  String, length-append, ==_refl, ℕ, suc, ◌≤◌, ◌<◌, ◌≡◌, refl, sym, ap, Bool, true, false, ◌==◌,
  str_eq, str_eq_iff, Option, none, some, List, [], ◌∷◌, ◌++◌, arith, length, first_where,
  Bool-cases, Option-cases, inl, inr,
}
use proactive_mcp.Model.Situation.{Situation}
use proactive_mcp.Db.{find_id, update_id, update_where}
use proactive_mcp.Situations.Statements.{next_id}
use proactive_mcp.Situations.Lifecycle.Invariant.{SameIdentity, SameIdentity-refl}

abbrev pub Ascending : ℕ → List Situation → Type 0
Ascending n [] = Unit {0}
Ascending n (s ∷ rows) = (n < s.id) × Ascending s.id rows

abbrev pub by_key : String → List Situation → Option Situation
by_key key rows = first_where (λ s. str_eq s.dedupe_key key) rows

abbrev pub DistinctKeys : List Situation → Type 0
DistinctKeys [] = Unit {0}
DistinctKeys (s ∷ rows) = (by_key s.dedupe_key rows ≡ none) × DistinctKeys rows

-- _MAX_SITUATION_ROWS
abbrev pub max_situation_rows : ℕ
max_situation_rows = 10000

pub record WellFormed (rows : List Situation) : Type 0 where
  pub ids : Ascending 0 rows
  pub keys : DistinctKeys rows
  pub bounded : length rows ≤ max_situation_rows

-- Row by row the same identity.
abbrev pub Aligned : List Situation → List Situation → Type 0
Aligned [] [] = Unit {0}
Aligned [] (y ∷ ys) = ⊥
Aligned (x ∷ xs) [] = ⊥
Aligned (x ∷ xs) (y ∷ ys) = SameIdentity x y × Aligned xs ys

Aligned-refl : (xs : List Situation) → Aligned xs xs
Aligned-refl [] = tt
Aligned-refl (x ∷ xs) = (SameIdentity-refl x, Aligned-refl xs)

Aligned-Ascending :
    (m n : ℕ) (xs ys : List Situation) → m ≡ n → Aligned xs ys → Ascending m xs → Ascending n ys
Aligned-Ascending m n [] [] e a h = tt
Aligned-Ascending m n [] (y ∷ ys) e a h = elim a [ ]
Aligned-Ascending m n (x ∷ xs) [] e a h = elim a [ ]
Aligned-Ascending m n (x ∷ xs) (y ∷ ys) e a h =
    (omega (arith, a.0.same_id), Aligned-Ascending x.id y.id xs ys (sym a.0.same_id) a.1 h.1)

Aligned-by_key :
    (key : String) (xs ys : List Situation)
    → Aligned xs ys
    → by_key key xs ≡ none
    → by_key key ys ≡ none
Aligned-by_key key [] [] a h = refl
Aligned-by_key key [] (y ∷ ys) a h = elim a [ ]
Aligned-by_key key (x ∷ xs) [] a h = elim a [ ]
Aligned-by_key key (x ∷ xs) (y ∷ ys) a h =
    ground (arith, a.0.same_key, Aligned-by_key key xs ys a.1)

Aligned-DistinctKeys : (xs ys : List Situation) → Aligned xs ys → DistinctKeys xs → DistinctKeys ys
Aligned-DistinctKeys [] [] a h = tt
Aligned-DistinctKeys [] (y ∷ ys) a h = elim a [ ]
Aligned-DistinctKeys (x ∷ xs) [] a h = elim a [ ]
Aligned-DistinctKeys (x ∷ xs) (y ∷ ys) a h = (
  rw a.0.same_key (Aligned-by_key x.dedupe_key xs ys a.1 h.0),
  Aligned-DistinctKeys xs ys a.1 h.1,
)

Aligned-length : (xs ys : List Situation) → Aligned xs ys → length ys ≡ length xs
Aligned-length [] [] a = refl
Aligned-length [] (y ∷ ys) a = elim a [ ]
Aligned-length (x ∷ xs) [] a = elim a [ ]
Aligned-length (x ∷ xs) (y ∷ ys) a = ap suc (Aligned-length xs ys a.1)

pub Aligned-WellFormed : (xs ys : List Situation) → Aligned xs ys → WellFormed xs → WellFormed ys
Aligned-WellFormed xs ys a w = record {
  ids = Aligned-Ascending 0 0 xs ys refl a w.ids;
  keys = Aligned-DistinctKeys xs ys a w.keys;
  bounded = omega (arith, Aligned-length xs ys a, w.bounded);
}

module _ (change : Situation → Situation) (same : (s : Situation) → SameIdentity s (change s)) where
  pub Aligned-update_id :
      (i : ℕ) (test : Situation → Bool) (xs ys : List Situation)
      → update_id i test change xs ≡ some ys
      → Aligned xs ys
  unfolding update_id
  Aligned-update_id i test [] ys h = cc
  Aligned-update_id i test (x ∷ xs) ys h = elim (Bool-cases (x.id == i)) [
    | inl hit ↦ rw (updated hit) (same x, Aligned-refl xs)
    | inr miss ↦ elim (Option-cases (update_id i test change xs)) [
      | inl gone ↦ ground arith
      | inr (more, e) ↦
          rw (passed_by miss more e) (SameIdentity-refl x, Aligned-update_id i test xs more e)
    ]
  ]
    where
      updated : (x.id == i) ≡ true → ys ≡ change x ∷ xs
      updated hit = ground arith

      passed_by :
          (x.id == i) ≡ false
          → (more : List Situation) → update_id i test change xs ≡ some more
          → ys ≡ x ∷ more
      passed_by miss more e = ground arith

  pub Aligned-update_where :
      (test : Situation → Bool) (xs : List Situation) → Aligned xs (update_where test change xs)
  unfolding update_where
  Aligned-update_where test [] = tt
  Aligned-update_where test (x ∷ xs) = elim (Bool-cases (test x)) [
    | inl pass ↦ rw pass (same x, Aligned-update_where test xs)
    | inr fail ↦ rw fail (SameIdentity-refl x, Aligned-update_where test xs)
  ]

lt-next_id :
    (n : ℕ) (r : Situation) (rows : List Situation)
    → Ascending n (r ∷ rows)
    → n < next_id (r ∷ rows)
unfolding next_id
lt-next_id n r [] a = omega arith
lt-next_id n r (q ∷ rows) a = omega (arith, lt-next_id r.id q rows a.1, a.0)

-- A new row with the next id, a new key, and room for it.
Ascending-insert :
    (n : ℕ) (rows : List Situation) (s : Situation)
    → s.id ≡ next_id rows
    → n < s.id
    → Ascending n rows
    → Ascending n (rows ++ s ∷ [])
unfolding next_id
Ascending-insert n [] s e lt a = (lt, tt)
Ascending-insert n (r ∷ []) s e lt a = (a.0, (omega arith, tt))
Ascending-insert n (r ∷ q ∷ rows) s e lt a =
    (a.0, Ascending-insert r.id (q ∷ rows) s e (omega (arith, lt-next_id r.id q rows a.1)) a.1)

by_key-insert :
    (key : String) (rows : List Situation) (s : Situation)
    → by_key key rows ≡ none
    → str_eq s.dedupe_key key ≡ false
    → by_key key (rows ++ s ∷ []) ≡ none
by_key-insert key [] s h ne = ground arith
by_key-insert key (r ∷ rows) s h ne = ground (arith, by_key-insert key rows s)

DistinctKeys-insert :
    (rows : List Situation) (s : Situation)
    → by_key s.dedupe_key rows ≡ none
    → DistinctKeys rows
    → DistinctKeys (rows ++ s ∷ [])
DistinctKeys-insert [] s new d = (refl, tt)
DistinctKeys-insert (r ∷ rows) s new d = (
  by_key-insert r.dedupe_key rows s d.0
      (ground (arith, str_eq_iff s.dedupe_key r.dedupe_key, str_eq_iff r.dedupe_key s.dedupe_key)),
  DistinctKeys-insert rows s (ground arith) d.1,
)

next_id-pos : (rows : List Situation) → Ascending 0 rows → 0 < next_id rows
next_id-pos [] a = unfold next_id in omega arith
next_id-pos (r ∷ rows) a = lt-next_id 0 r rows a

pub WellFormed-insert :
    (rows : List Situation) (s : Situation)
    → s.id ≡ next_id rows
    → by_key s.dedupe_key rows ≡ none
    → length rows < max_situation_rows
    → WellFormed rows
    → WellFormed (rows ++ s ∷ [])
WellFormed-insert rows s e new room w = record {
  ids = Ascending-insert 0 rows s e (omega (arith, next_id-pos rows w.ids)) w.ids;
  keys = DistinctKeys-insert rows s new w.keys;
  bounded = omega (arith, length-append rows (s ∷ []));
}

-- The row that a key finds is the row that its id finds.
find_id-by_key :
    (n : ℕ) (key : String) (rows : List Situation) (s : Situation)
    → Ascending n rows
    → by_key key rows ≡ some s
    → (n < s.id) × (find_id s.id rows ≡ some s)
unfolding find_id
find_id-by_key n key [] s a h = cc
find_id-by_key n key (r ∷ rows) s a h = elim (Bool-cases (str_eq r.dedupe_key key)) [
  | inl hit ↦ ground (arith, ==_refl s.id)
  | inr miss ↦
      let (above, found) = find_id-by_key r.id key rows s a.1 (ground arith) in
      (omega arith, ground arith)
]

pub WellFormed-find_id :
    (key : String) (rows : List Situation) (s : Situation)
    → WellFormed rows
    → by_key key rows ≡ some s
    → find_id s.id rows ≡ some s
WellFormed-find_id key rows s w h = (find_id-by_key 0 key rows s w.ids h).1
