-- ===== src/Conflicts/Sweep.antt =====
-- The heap and the two dicts agree, and expire together.
use proactive_mcp.Prelude.{
  ℕ, ◌≤◌, ◌<◌, ◌≡◌, refl, sym, ap, ◌∙◌, Bool, true, false, ◌&&◌, List, [], ◌∷◌, arith, All, All-map,
  All-select_where, Bool-cases, inl, inr, ltb, leb, ◌==◌, leb→le, leb-false, select_where,
  exists_where,
}
use proactive_mcp.Conflicts.{Entry, End, without, expire_ends}

abbrev pub is_live : ℕ → Entry → Bool
is_live start x = ltb start x.1.end

-- The ends rise.
abbrev pub Rising : List End → Type 0
Rising [] = Unit {0}
Rising (e ∷ ends) = All (λ f. e.0 ≤ f.0) ends × Rising ends

abbrev pub has_end : Entry → List End → Bool
has_end x = exists_where λ e. e.0 == x.1.end && e.1 == x.0

-- Every entry has its end in the heap, and an end with an entry's number is that entry's.
abbrev pub Covered : List End → Entry → Type 0
Covered ends x = has_end x ends ≡ true

abbrev pub Agrees : List Entry → End → Type 0
Agrees entries e = All (λ x. (x.0 == e.1) ≡ true → x.1.end ≡ e.0) entries

select_where-none {ℓ} :
    {A : Type ℓ} (p : A → Bool) (xs : List A) → All (λ x. p x ≡ true) xs → select_where p xs ≡ xs
select_where-none p [] h = refl
select_where-none p (x ∷ xs) h = rw h.0 (ap (λ l. x ∷ l) (select_where-none p xs h.1))

-- What was popped is not live.
select-without :
    (start : ℕ) (e : End) (entries : List Entry)
    → e.0 ≤ start
    → Agrees entries e
    → select_where (is_live start) (without e.1 entries) ≡ select_where (is_live start) entries
select-without start e [] low h = refl
select-without start e (x ∷ entries) low h = elim (Bool-cases (x.0 == e.1)) [
  | inl same ↦
      let dead : is_live start x ≡ false = let it = h.0 same in ground (arith, it, low) in
      rw (same, dead) (select-without start e entries low h.1)
  | inr other ↦ elim (Bool-cases (is_live start x)) [
    | inl live ↦ rw (other, live) (ap (λ l. x ∷ l) (select-without start e entries low h.1))
    | inr dead ↦ rw (other, dead) (select-without start e entries low h.1)
  ]
]

Covered-live :
    (start : ℕ) (ends : List End) (x : Entry)
    → All (λ e. start < e.0) ends
    → Covered ends x
    → is_live start x ≡ true
Covered-live start [] x h c = absurd (cc)
Covered-live start (e ∷ ends) x h c = elim (Bool-cases (e.0 == x.1.end && e.1 == x.0)) [
  | inl here ↦ let low = h.0 in ground (arith, low)
  | inr there ↦ Covered-live start ends x h.1 (ground arith)
]

Covered-rest :
    (e : End) (ends : List End) (x : Entry)
    → (x.0 == e.1) ≡ false
    → Covered (e ∷ ends) x
    → Covered ends x
Covered-rest e ends x other c = ground arith

pub without-Covered :
    (e : End) (ends : List End) (entries : List Entry)
    → All (Covered (e ∷ ends)) entries
    → All (Covered ends) (without e.1 entries)
without-Covered e ends [] h = tt
without-Covered e ends (x ∷ entries) h = elim (Bool-cases (x.0 == e.1)) [
  | inl same ↦ rw same (without-Covered e ends entries h.1)
  | inr other ↦ rw other (Covered-rest e ends x other h.0, without-Covered e ends entries h.1)
]

above :
    (start : ℕ) (e : End) (ends : List End)
    → start < e.0
    → All (λ f. e.0 ≤ f.0) ends
    → All (λ f. start < f.0) ends
above start e ends low h = All-map _ _ ends (λ f g. omega (arith, g, low)) h

-- After the loop the live entries are left, in their order.
pub expire_ends-active :
    (start : ℕ) (ends : List End) (active timed : List Entry)
    → Rising ends
    → All (Covered ends) active
    → All (Agrees active) ends
    → (expire_ends start ends active timed).active ≡ select_where (is_live start) active
unfolding expire_ends
expire_ends-active start [] active timed r c a = sym (
    select_where-none (is_live start) active
      (All-map (Covered []) _ active (λ x h. Covered-live start [] x tt h) c))
expire_ends-active start (e ∷ ends) active timed r c a = elim (Bool-cases (leb e.0 start)) [
  | inl over ↦ rw over (
      expire_ends-active start ends (without e.1 active) (without e.1 timed) r.1
        (without-Covered e ends active c)
        (All-map (Agrees active) (Agrees (without e.1 active)) ends
          (λ f h. All-select_where _ _ active h) a.1)
      ∙ select-without start e active (leb→le e.0 start over) a.0)
  | inr later ↦ rw later (
      sym (
        select_where-none (is_live start) active (
          All-map (Covered (e ∷ ends)) _ active
            (λ x h.
              Covered-live start (e ∷ ends) x
                (leb-false e.0 start later, above start e ends (leb-false e.0 start later) r.0) h)
            c)))
]
