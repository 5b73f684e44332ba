-- ===== src/Conflicts/Output.antt =====
-- The loop over the candidates keeps to the first thousand conflicts.
use mathlib.Core.List.{append-nil, append_assoc}
use proactive_mcp.Prelude.{
  ℕ, zero, suc, ◌≤◌, ◌≡◌, refl, sym, ap, ◌∙◌, Bool, true, false, not, List, [], ◌∷◌, ◌++◌, map,
  arith, Bool-cases, inl, inr, leb, ◌==◌, ==→eq, select_where, length, length-append, take, min,
}
use proactive_mcp.Conflicts.{Interval, Entry, Conflict, max_calendar_conflicts, add_conflicts}

abbrev pub conflict_of : Interval → Interval → Conflict
conflict_of current p = record {
  first = p;
  second = current;
  overlap_start = current.start;
  overlap_end = min p.end current.end;
}

-- The overlap is not over.
abbrev pub is_ahead : ℕ → Interval → Entry → Bool
is_ahead now current p = not (leb (min p.1.end current.end) now)

abbrev pub conflicts_with : ℕ → Interval → List Entry → List Conflict
conflicts_with now current entries =
    map (λ p. conflict_of current p.1) (select_where (is_ahead now current) entries)

-- All of a list of conflicts if it is not too long, or else its beginning.
abbrev pub bounded : List Conflict → List Conflict × Bool
bounded all = (take max_calendar_conflicts all, leb (length all) max_calendar_conflicts)

take-length {ℓ} : {A : Type ℓ} (n : ℕ) (xs : List A) → length xs ≤ n → take n xs ≡ xs
take-length zero [] h = refl
take-length zero (x ∷ xs) h = absurd (omega (arith, h))
take-length (suc n) [] h = refl
take-length (suc n) (x ∷ xs) h = ap (λ l. x ∷ l) (take-length n xs (omega (arith, h)))

take-full {ℓ} : {A : Type ℓ} (n : ℕ) (xs ys : List A) → length xs ≡ n → take n (xs ++ ys) ≡ xs
take-full zero [] ys h = refl
take-full zero (x ∷ xs) ys h = absurd (omega (arith, h))
take-full (suc n) [] ys h = absurd (omega (arith, h))
take-full (suc n) (x ∷ xs) ys h = ap (λ l. x ∷ l) (take-full n xs ys (omega (arith, h)))

pub bounded-short :
    (all : List Conflict) → length all ≤ max_calendar_conflicts → bounded all ≡ (all, true)
bounded-short all h =
    let short : leb (length all) max_calendar_conflicts ≡ true = ground arith in
    rw short (ap (λ l. (l, true)) (take-length max_calendar_conflicts all h))

pub add_conflicts_lem :
    (now : ℕ) (current : Interval) (entries : List Entry) (found : List Conflict)
    → length found ≤ max_calendar_conflicts
    → add_conflicts now current entries found
      ≡ bounded (found ++ conflicts_with now current entries)
unfolding add_conflicts
add_conflicts_lem now current [] found h =
    sym (ap bounded (append-nil found) ∙ bounded-short found h)
add_conflicts_lem now current (p ∷ rest) found h =
    elim (Bool-cases (leb (min p.1.end current.end) now)) [
      | inl over ↦ rw over (add_conflicts_lem now current rest found h)
      | inr ahead ↦ elim (Bool-cases (length found == max_calendar_conflicts)) [
        | inl full ↦ rw ahead (rw full (sym (overflow full)))
        | inr room ↦ rw ahead (
            rw room (
              add_conflicts_lem now current rest (found ++ conflict_of current p.1 ∷ [])
                (rw (length-append found (conflict_of current p.1 ∷ [])) (ground arith))
              ∙ ap bounded (
                  append_assoc found (conflict_of current p.1 ∷ [])
                    (conflicts_with now current rest))))
      ]
    ]
  where
    overflow :
        (length found == max_calendar_conflicts) ≡ true
        → bounded (found ++ conflict_of current p.1 ∷ conflicts_with now current rest)
          ≡ (found, false)
    overflow full =
        let exact = ==→eq (length found) max_calendar_conflicts full in
        let long : leb (length (found ++ conflict_of current p.1 ∷ conflicts_with now current rest))
              max_calendar_conflicts
            ≡ false =
          rw (length-append found (conflict_of current p.1 ∷ conflicts_with now current rest))
            (ground (arith, exact)) in
        rw long (
          ap (λ l. (l, false))
            (take-full max_calendar_conflicts found
              (conflict_of current p.1 ∷ conflicts_with now current rest) exact))
