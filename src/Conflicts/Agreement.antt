-- ===== src/Conflicts/Agreement.antt =====
-- The loop and the push keep the heap and the dicts in agreement.
use mathlib.Core.List.{append-nil}
use proactive_mcp.Prelude.{
  ◌⊎◌, ℕ, suc, ◌≤◌, ◌<◌, ◌≡◌, refl, sym, ap, ◌∙◌, Bool, true, false, not, ◌&&◌, List, [], ◌∷◌, ◌++◌,
  arith, All, All-map, All-append, All-select_where, Bool-cases, inl, inr, leb, ◌==◌, if◌then◌else◌,
  select_where, ==_refl,
}
use proactive_mcp.Prelude.Sort.{insert, insert-All}
use proactive_mcp.Conflicts.{Interval, Entry, End, Actives, end_before, without, expire_ends, push}
use proactive_mcp.Conflicts.Sweep.{Rising, Covered, Agrees, has_end, without-Covered}

abbrev pub is_timed : Entry → Bool
is_timed x = not x.1.all_day

-- Numbers below `n` are taken.
pub record IsAgreed (n : ℕ) (state : Actives) : Type 0 where
  pub rising : Rising state.ends
  pub covered : All (Covered state.ends) state.active
  pub agrees : All (Agrees state.active) state.ends
  pub low_ends : All (λ e. e.1 < n) state.ends
  pub low_active : All (λ x. x.0 < n) state.active
  pub timed : state.active_timed ≡ select_where is_timed state.active

select-commute {ℓ} :
    {A : Type ℓ} (p q : A → Bool) (xs : List A)
    → select_where p (select_where q xs) ≡ select_where q (select_where p xs)
select-commute p q [] = refl
select-commute p q (x ∷ xs) = elim (Bool-cases (p x)) [
  | inl a ↦ elim (Bool-cases (q x)) [
    | inl b ↦ rw b (rw a (rw b (ap (λ l. x ∷ l) (select-commute p q xs))))
    | inr b ↦ rw b (rw a (rw b (select-commute p q xs)))
  ]
  | inr a ↦ elim (Bool-cases (q x)) [
    | inl b ↦ rw b (rw a (select-commute p q xs))
    | inr b ↦ rw b (rw a (select-commute p q xs))
  ]
]

pub expire_ends-IsAgreed :
    (n start : ℕ) (ends : List End) (active timed : List Entry)
    → IsAgreed n (record { ends = ends; active = active; active_timed = timed })
    → IsAgreed n (expire_ends start ends active timed)
unfolding expire_ends
expire_ends-IsAgreed n start [] active timed h = h
expire_ends-IsAgreed n start (e ∷ ends) active timed h = elim (Bool-cases (leb e.0 start)) [
  | inl over ↦ rw over (
      expire_ends-IsAgreed n start ends (without e.1 active) (without e.1 timed) (record {
        rising = h.rising.1;
        covered = without-Covered e ends active h.covered;
        agrees =
            All-map (Agrees active) (Agrees (without e.1 active)) ends
              (λ f a. All-select_where _ _ active a) h.agrees.1;
        low_ends = h.low_ends.1;
        low_active = All-select_where _ _ active h.low_active;
        timed = ap (without e.1) h.timed ∙ select-commute (λ x. not (x.0 == e.1)) is_timed active;
      }))
  | inr later ↦ rw later h
]

insert-Rising : (e : End) (ends : List End) → Rising ends → Rising (insert end_before e ends)
unfolding insert
insert-Rising e [] r = (tt, tt)
insert-Rising e (f ∷ ends) r = elim (Bool-cases (end_before f e)) [
  | inl less ↦
      rw less
        (insert-All end_before (λ g. f.0 ≤ g.0) e ends (ground arith) r.0, insert-Rising e ends r.1)
  | inr more ↦
      let up : e.0 ≤ f.0 = ground arith in
      rw more ((up, All-map _ _ ends (λ g h. omega (arith, h, up)) r.0), r)
]

has_end-insert-old :
    (x : Entry) (e : End) (ends : List End)
    → has_end x ends ≡ true
    → has_end x (insert end_before e ends) ≡ true
unfolding insert
has_end-insert-old x e [] h = absurd (cc)
has_end-insert-old x e (f ∷ ends) h = elim (Bool-cases (end_before f e)) [
  | inl less ↦ elim (Bool-cases (f.0 == x.1.end && f.1 == x.0)) [
    | inl here ↦ rw less (rw here refl)
    | inr there ↦ rw less (rw there (has_end-insert-old x e ends (ground arith)))
  ]
  | inr more ↦ rw more (ground arith)
]

has_end-insert-new :
    (n : ℕ) (current : Interval) (ends : List End)
    → has_end (n, current) (insert end_before (current.end, n) ends) ≡ true
unfolding insert
has_end-insert-new n current [] = rw (==_refl current.end) (rw (==_refl n) refl)
has_end-insert-new n current (f ∷ ends) = elim (Bool-cases (end_before f (current.end, n))) [
  | inl less ↦ rw less (let rest = has_end-insert-new n current ends in ground arith)
  | inr more ↦ rw more (rw (==_refl current.end) (rw (==_refl n) refl))
]

pub select_where-append {ℓ} :
    {A : Type ℓ} (p : A → Bool) (xs ys : List A)
    → select_where p (xs ++ ys) ≡ select_where p xs ++ select_where p ys
select_where-append p [] ys = refl
select_where-append p (x ∷ xs) ys = elim (Bool-cases (p x)) [
  | inl e ↦ rw e (ap (λ l. x ∷ l) (select_where-append p xs ys))
  | inr e ↦ rw e (select_where-append p xs ys)
]

without-new :
    (n : ℕ) (current : Interval) (ends : List End) (active : List Entry)
    → All (λ e. e.1 < n) ends
    → All (Agrees active) ends
    → All (Agrees (active ++ (n, current) ∷ [])) ends
without-new n current [] active low h = tt
without-new n current (e ∷ ends) active low h = (
  All-append _ active ((n, current) ∷ []) h.0
      (λ same. absurd (let below = low.0 in ground arith), tt),
  without-new n current ends active low.1 h.1,
)

-- The new entry, with the number `n`, joins both.
pub push-IsAgreed :
    (n : ℕ) (current : Interval) (state : Actives)
    → IsAgreed n state
    → IsAgreed (suc n) (push n current state)
unfolding push
push-IsAgreed n current state h = record {
  rising = insert-Rising (current.end, n) state.ends h.rising;
  covered =
      All-append _ state.active ((n, current) ∷ [])
        (All-map _ _ state.active (λ x c. has_end-insert-old x (current.end, n) state.ends c)
          h.covered)
        (has_end-insert-new n current state.ends, tt);
  agrees =
      insert-All end_before _ (current.end, n) state.ends
        (All-append _ state.active ((n, current) ∷ [])
          (All-map _ _ state.active (λ x low same. absurd (ground (arith, low))) h.low_active)
          (λ same. refl, tt))
        (without-new n current state.ends state.active h.low_ends h.agrees);
  low_ends =
      insert-All end_before _ (current.end, n) state.ends (omega arith)
        (All-map _ _ state.ends (λ e low. omega (arith, low)) h.low_ends);
  low_active =
      All-append _ state.active ((n, current) ∷ [])
        (All-map _ _ state.active (λ x low. omega (arith, low)) h.low_active) (omega arith, tt);
  timed = joined_timed (Bool-cases current.all_day);
}
  where
    joined_timed :
        (current.all_day ≡ true) ⊎ (current.all_day ≡ false)
        → (if current.all_day then state.active_timed else state.active_timed ++ (n, current) ∷ [])
          ≡ select_where is_timed (state.active ++ (n, current) ∷ [])
    joined_timed (inl e) =
        rw (select_where-append is_timed state.active ((n, current) ∷ []))
          (rw e (h.timed ∙ sym (append-nil (select_where is_timed state.active))))
    joined_timed (inr e) =
        rw (select_where-append is_timed state.active ((n, current) ∷ []))
          (simp e (ap (λ l. l ++ (n, current) ∷ []) h.timed))
