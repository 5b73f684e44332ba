-- ===== src/Conflicts/Tracks.antt =====
-- The active entries are the live ones of the intervals seen so far, and give an interval's pairs.
use proactive_mcp.Prelude.{
  ℕ, ◌≤◌, ◌≡◌, refl, sym, ap, ◌∙◌, Bool, true, false, not, ◌&&◌, List, [], ◌∷◌, ◌++◌, map, arith,
  Bool-cases, inl, inr, ltb, leb, if◌then◌else◌, select_where, min,
}
use proactive_mcp.Conflicts.{Interval, Entry, Conflict}
use proactive_mcp.Conflicts.Sweep.{is_live}
use proactive_mcp.Conflicts.Agreement.{is_timed, select_where-append}
use proactive_mcp.Conflicts.Output.{conflict_of, is_ahead, conflicts_with}

-- An earlier interval that overlaps one that starts no earlier, in time that is not over; two all-day
-- intervals do not count.
abbrev pub overlaps : ℕ → Interval → Interval → Bool
overlaps now current p =
    ltb current.start p.end
    && not (current.all_day && p.all_day)
    && not (leb (min p.end current.end) now)

abbrev pub all_pairs : ℕ → List Interval → List Interval → List Conflict
all_pairs now seen [] = []
all_pairs now seen (current ∷ rest) =
    map (conflict_of current) (select_where (overlaps now current) seen)
    ++ all_pairs now (seen ++ current ∷ []) rest

abbrev pub StartsRise : ℕ → List Interval → Type 0
StartsRise last [] = Unit {0}
StartsRise last (i ∷ rest) = (last ≤ i.start) × StartsRise i.start rest

abbrev intervals : List Entry → List Interval
intervals = map (λ x. x.1)

intervals-select :
    (p : Interval → Bool) (xs : List Entry)
    → intervals (select_where (λ x. p x.1) xs) ≡ select_where p (intervals xs)
intervals-select p [] = refl
intervals-select p (x ∷ xs) = elim (Bool-cases (p x.1)) [
  | inl e ↦ rw e (ap (λ l. x.1 ∷ l) (intervals-select p xs))
  | inr e ↦ rw e (intervals-select p xs)
]

select-select {ℓ} :
    {A : Type ℓ} (p q r : A → Bool) (xs : List A)
    → ((x : A) → r x ≡ (q x && p x))
    → select_where p (select_where q xs) ≡ select_where r xs
select-select p q r [] h = refl
select-select p q r (x ∷ xs) h = elim (Bool-cases (q x)) [
  | inl b ↦ elim (Bool-cases (p x)) [
    | inl a ↦
        let both : r x ≡ true = h x ∙ ground arith in
        rw (b, both) (rw a (ap (λ l. x ∷ l) (select-select p q r xs h)))
    | inr a ↦
        let one : r x ≡ false = h x ∙ ground arith in rw (b, one) (rw a (select-select p q r xs h))
  ]
  | inr b ↦ let no : r x ≡ false = h x ∙ ground arith in rw (b, no) (select-select p q r xs h)
]

conflicts_with-intervals :
    (now : ℕ) (current : Interval) (xs : List Entry)
    → conflicts_with now current xs
      ≡ map
          (conflict_of current)
          (select_where (λ p. not (leb (min p.end current.end) now)) (intervals xs))
conflicts_with-intervals now current [] = refl
conflicts_with-intervals now current (x ∷ xs) = elim (Bool-cases (is_ahead now current x)) [
  | inl e ↦ rw e (ap (λ l. conflict_of current x.1 ∷ l) (conflicts_with-intervals now current xs))
  | inr e ↦ rw e (conflicts_with-intervals now current xs)
]

-- From `last` on, the active entries are the live ones of all that were seen.
abbrev pub Tracks : ℕ → List Entry → List Interval → Type 0
Tracks last active seen =
    (t : ℕ)
    → last ≤ t
    → intervals (select_where (is_live t) active) ≡ select_where (λ p. ltb t p.end) seen

pub Tracks-push :
    (n last : ℕ) (active : List Entry) (seen : List Interval) (current : Interval)
    → last ≤ current.start
    → Tracks last active seen
    → Tracks current.start
        (select_where (is_live current.start) active ++ (n, current) ∷ [])
        (seen ++ current ∷ [])
Tracks-push n last active seen current low h t after =
    ap intervals (
      select_where-append (is_live t) (select_where (is_live current.start) active)
        ((n, current) ∷ []))
    ∙ intervals-append (select_where (is_live t) (select_where (is_live current.start) active))
        (select_where (is_live t) ((n, current) ∷ []))
    ∙ ap (λ l. intervals l ++ intervals (select_where (is_live t) ((n, current) ∷ [])))
        (select-select (is_live t) (is_live current.start) (is_live t) active later)
    ∙ ap (λ l. l ++ intervals (select_where (is_live t) ((n, current) ∷ [])))
        (h t (omega (arith, low, after)))
    ∙ ap (λ l. select_where (λ p. ltb t p.end) seen ++ l)
        (intervals-select (λ p. ltb t p.end) ((n, current) ∷ []))
    ∙ sym (select_where-append (λ p. ltb t p.end) seen (current ∷ []))
  where
    later : (x : Entry) → is_live t x ≡ (is_live current.start x && is_live t x)
    later x = ground (arith, after)

    intervals-append : (xs ys : List Entry) → intervals (xs ++ ys) ≡ intervals xs ++ intervals ys
    intervals-append [] ys = refl
    intervals-append (x ∷ xs) ys = ap (λ l. x.1 ∷ l) (intervals-append xs ys)

true_and : (x y : Bool) → (x && true && y) ≡ (x && y)
true_and x y = ground arith

regroup : (x y z : Bool) → (x && y && z) ≡ ((x && y) && z)
regroup x y z = ground arith

-- The candidates of an interval give its pairs.
pub candidates-pairs :
    (now last : ℕ) (active : List Entry) (seen : List Interval) (current : Interval)
    → last ≤ current.start
    → Tracks last active seen
    → conflicts_with now current (
        if current.all_day
        then select_where is_timed (select_where (is_live current.start) active)
        else select_where (is_live current.start) active)
      ≡ map (conflict_of current) (select_where (overlaps now current) seen)
candidates-pairs now last active seen current low h =
    conflicts_with-intervals now current _ ∙ ap (map (conflict_of current)) (pick current.all_day)
  where
    ahead : Interval → Bool
    ahead p = not (leb (min p.end current.end) now)

    live : Interval → Bool
    live p = ltb current.start p.end

    left : List Entry
    left = select_where (is_live current.start) active

    pick :
        (b : Bool)
        → select_where ahead (intervals (if b then select_where is_timed left else left))
          ≡ select_where (λ p. live p && not (b && p.all_day) && ahead p) seen
    pick true =
        ap (select_where ahead) (
          intervals-select (λ p. not p.all_day) left
          ∙ ap (select_where (λ p. not p.all_day)) (h current.start low)
          ∙ select-select (λ p. not p.all_day) live (λ p. live p && not p.all_day) seen (λ p. refl))
        ∙ select-select ahead (λ p. live p && not p.all_day) _ seen
            (λ p. regroup (live p) (not p.all_day) (ahead p))
    pick false =
        ap (select_where ahead) (h current.start low)
        ∙ select-select ahead live (λ p. live p && not (false && p.all_day) && ahead p) seen
            (λ p. true_and (live p) (ahead p))
