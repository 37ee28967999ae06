-- ===== src/Prelude/Sorting.antt =====
-- `ORDER BY`: a stable insertion sort by a Boolean order, and what it keeps.
use Prim.Native.Nat.{ℕ, suc, ◌≤◌}
use mathlib.Core.Path.{◌≡◌, refl}
use mathlib.Core.Logic.{inl, inr}
use mathlib.Core.Bool.{Bool, true, false}
use mathlib.Core.List.{List, [], ◌∷◌, Perm}
use mathlib.Core.List.Perm
use native.Mathlib.Omega.{arith}
use re_dstm.Prelude.Tests.{if◌then◌else◌, Bool-cases}
use re_dstm.Prelude.Lists.{All, All-imp, length}

module _ {ℓ} {A : Type ℓ} (before : A → A → Bool) where
  -- `x` goes in front of the first element that is not strictly before it.
  unfoldable pub insert : A → List A → List A
  insert x [] = x ∷ []
  insert x (y ∷ ys) = let rest = y ∷ insert x ys in if before y x then rest else x ∷ y ∷ ys

  unfoldable pub sort : List A → List A
  unfolding insert
  sort [] = []
  sort (x ∷ xs) = insert x (sort xs)

  -- Neighbours are in order: none is strictly before its predecessor.
  abbrev HeadOk : A → List A → Type 0
  HeadOk x [] = Unit
  HeadOk x (y ∷ ys) = before y x ≡ false

  abbrev pub IsSorted : List A → Type 0
  IsSorted [] = Unit
  IsSorted (x ∷ xs) = HeadOk x xs × IsSorted xs

  insert-perm : (x : A) (ys : List A) → Perm (insert x ys) (x ∷ ys)
  unfolding insert
  insert-perm x [] = Perm.refl (x ∷ [])
  insert-perm x (y ∷ ys) = elim (Bool-cases (before y x)) [
    | inl e ↦ rw e (Perm.trans (Perm.cons y (insert-perm x ys)) (Perm.swap x y ys))
    | inr e ↦ rw e (Perm.refl (x ∷ y ∷ ys))
  ]

  -- Sorting neither drops nor repeats a row.
  pub sort-perm : (xs : List A) → Perm (sort xs) xs
  unfolding sort
  sort-perm [] = Perm.refl []
  sort-perm (x ∷ xs) = Perm.trans (insert-perm x (sort xs)) (Perm.cons x (sort-perm xs))

  length-insert : (x : A) (ys : List A) → length (insert x ys) ≡ suc (length ys)
  unfolding insert
  length-insert x [] = refl
  length-insert x (y ∷ ys) = ground (arith, length-insert x ys)

  pub length-sort : (xs : List A) → length (sort xs) ≡ length xs
  unfolding sort
  length-sort [] = refl
  length-sort (x ∷ xs) = omega (arith, length-insert x (sort xs), length-sort xs)

  module _ (asym : (x y : A) → before x y ≡ true → before y x ≡ false) where
    insert_after :
        (x y : A) (ys : List A) → before y x ≡ true → HeadOk y ys → HeadOk y (insert x ys)
    unfolding insert
    insert_after x y [] b h = asym y x b
    insert_after x y (z ∷ zs) b h = elim (Bool-cases (before z x)) [
      | inl e ↦ rw e h
      | inr e ↦ rw e (asym y x b)
    ]

    insert-IsSorted : (x : A) (ys : List A) → IsSorted ys → IsSorted (insert x ys)
    unfolding insert
    insert-IsSorted x [] s = (tt, tt)
    insert-IsSorted x (y ∷ ys) s = elim (Bool-cases (before y x)) [
      | inl e ↦ rw e (insert_after x y ys e s.0, insert-IsSorted x ys s.1)
      | inr e ↦ rw e (e, s)
    ]

    pub sort-IsSorted : (xs : List A) → IsSorted (sort xs)
    unfolding sort
    sort-IsSorted [] = tt
    sort-IsSorted (x ∷ xs) = insert-IsSorted x (sort xs) (sort-IsSorted xs)

module _ {ℓ κ} {A : Type ℓ} (P : A → Type κ) (before : A → A → Bool) where
  All-insert : (x : A) (ys : List A) → P x → All P ys → All P (insert before x ys)
  unfolding insert
  All-insert x [] p h = (p, tt)
  All-insert x (y ∷ ys) p h = elim (Bool-cases (before y x)) [
    | inl e ↦ rw e (h.0, All-insert x ys p h.1)
    | inr e ↦ rw e (p, h)
  ]

  pub All-sort : (xs : List A) → All P xs → All P (sort before xs)
  unfolding sort
  All-sort [] h = tt
  All-sort (x ∷ xs) h = All-insert x (sort before xs) h.0 (All-sort xs h.1)

-- A sort by an order that refines the order of a number puts the numbers in order.
module _ {ℓ} {A : Type ℓ} (key : A → ℕ) where
  abbrev pub Ordered : List A → Type 0
  Ordered [] = Unit
  Ordered (x ∷ xs) = All (λ y. key x ≤ key y) xs × Ordered xs

  module _ (before : A → A → Bool) (forth : (x y : A) → before x y ≡ true → key x ≤ key y)
      (back : (x y : A) → before x y ≡ false → key y ≤ key x) where
    insert-Ordered : (x : A) (ys : List A) → Ordered ys → Ordered (insert before x ys)
    unfolding insert
    insert-Ordered x [] o = (tt, tt)
    insert-Ordered x (y ∷ ys) o = elim (Bool-cases (before y x)) [
      | inl e ↦
          rw e
            (All-insert (λ z. key y ≤ key z) before x ys (forth y x e) o.0, insert-Ordered x ys o.1)
      | inr e ↦ rw e (
        (
          back y x e,
          All-imp (λ z. key y ≤ key z) (λ z. key x ≤ key z) (λ z h. omega (arith, h, back y x e)) ys
              o.0,
        ),
        o,
      )
    ]

    pub sort-Ordered : (xs : List A) → Ordered (sort before xs)
    unfolding sort
    sort-Ordered [] = tt
    sort-Ordered (x ∷ xs) = insert-Ordered x (sort before xs) (sort-Ordered xs)
