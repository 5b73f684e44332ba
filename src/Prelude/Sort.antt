-- ===== src/Prelude/Sort.antt =====
-- Insertion by a Boolean order, which stands for SQL's ORDER BY and for Python's `sorted`.
use mathlib.Core.Logic.{inl, inr}
use mathlib.Core.Bool.{Bool, true, false}
use mathlib.Core.List.{List, [], ◌∷◌, Perm}
use mathlib.Core.List.Perm
use proactive_mcp.Prelude.Tests.{if◌then◌else◌, Bool-cases}
use mathlib.Core.Path.{◌≡◌, refl, sym, subst}
use proactive_mcp.Prelude.Lists.{All, All-map}

module _ {ℓ} {A : Type ℓ} (before : A → A → Bool) where
  -- `x` goes behind what must come before it; equal rows keep their order.
  unfoldable pub insert : A → List A → List A
  insert x [] = x ∷ []
  insert x (y ∷ ys) = let rest = y ∷ insert x ys in if before y x then rest else x ∷ y ∷ ys

  unfoldable pub sort : List A → List A
  unfolding insert
  sort [] = []
  sort (x ∷ xs) = insert x (sort xs)

  insert-perm : (x : A) (ys : List A) → Perm (insert x ys) (x ∷ ys)
  unfolding insert
  insert-perm x [] = Perm.refl _
  insert-perm x (y ∷ ys) = elim (Bool-cases (before y x)) [
    | inl e ↦ rw e (Perm.trans (Perm.cons y (insert-perm x ys)) (Perm.swap x y ys))
    | inr e ↦ rw e (Perm.refl _)
  ]

  pub sort-perm : (xs : List A) → Perm (sort xs) xs
  unfolding sort
  sort-perm [] = Perm.refl _
  sort-perm (x ∷ xs) = Perm.trans (insert-perm x (sort xs)) (Perm.cons x (sort-perm xs))

  pub insert-All {κ} : (P : A → Type κ) (x : A) (ys : List A) → P x → All P ys → All P (insert x ys)
  unfolding insert
  insert-All P x [] h k = (h, tt)
  insert-All P x (y ∷ ys) h k = elim (Bool-cases (before y x)) [
    | inl e ↦ rw e (k.0, insert-All P x ys h k.1)
    | inr e ↦ rw e (h, k)
  ]

  pub sort-All {κ} : (P : A → Type κ) (xs : List A) → All P xs → All P (sort xs)
  unfolding sort
  sort-All P [] h = tt
  sort-All P (x ∷ xs) h = insert-All P x (sort xs) h.0 (sort-All P xs h.1)

-- The first row of a sorted list comes before or level with every row.
module _ {ℓ} {A : Type ℓ} (before : A → A → Bool)
    (asym : (x y : A) → before x y ≡ true → before y x ≡ false)
    (negtrans : (x y z : A) → before x y ≡ false → before y z ≡ false → before x z ≡ false) where
  irrefl : (x : A) → before x x ≡ false
  irrefl x = elim (Bool-cases (before x x)) [ inl e ↦ asym x x e | inr e ↦ e ]

  insert_head :
      (x h : A) (ys rest : List A)
      → ((y : A) (more : List A) → ys ≡ y ∷ more → All (λ t. before t y ≡ false) ys)
      → insert before x ys ≡ h ∷ rest
      → All (λ t. before t h ≡ false) (insert before x ys)
  unfolding insert
  insert_head x h [] rest least e = let same : x ≡ h = cc in rw (sym same) (irrefl x, tt)
  insert_head x h (y ∷ ys) rest least e = elim (Bool-cases (before y x)) [
    | inl yx ↦
        let same : y ≡ h = cc in
        let below = least y ys refl in
        subst (λ q. All (λ t. before t q ≡ false) (insert before x (y ∷ ys))) same
          (rw yx (irrefl y, insert-All before _ x ys (asym y x yx) below.1))
    | inr xy ↦
        let same : x ≡ h = cc in
        subst (λ q. All (λ t. before t q ≡ false) (insert before x (y ∷ ys))) same
          (rw xy
            (irrefl x, (xy, All-map _ _ ys (λ t ty. negtrans t y x ty xy) (least y ys refl).1)))
  ]

  pub sort_head :
      (xs : List A) (h : A) (rest : List A)
      → sort before xs ≡ h ∷ rest
      → All (λ t. before t h ≡ false) (sort before xs)
  unfolding sort
  sort_head [] h rest e = tt
  sort_head (x ∷ xs) h rest e =
      insert_head x h (sort before xs) rest (λ y more f. sort_head xs y more f) e

-- What holds of every sorted row holds of every row.
module _ {ℓ κ} {A : Type ℓ} (before : A → A → Bool) (P : A → Type κ) where
  All-insert : (x : A) (ys : List A) → All P (insert before x ys) → P x × All P ys
  unfolding insert
  All-insert x [] h = (h.0, tt)
  All-insert x (y ∷ ys) h = elim (Bool-cases (before y x)) [
    | inl e ↦ let k = rw (e) at h in let more = All-insert x ys k.1 in (more.0, (k.0, more.1))
    | inr e ↦ let k = rw (e) at h in k
  ]

  pub All-sort : (xs : List A) → All P (sort before xs) → All P xs
  unfolding sort
  All-sort [] h = tt
  All-sort (x ∷ xs) h = let more = All-insert x (sort before xs) h in (more.0, All-sort xs more.1)
