-- ===== src/Control/Outbox/Ids.antt =====
-- The ids of the outbox ascend, so each names one item.
use re_dstm.Prelude.{
  ℕ, ◌<◌, ◌≡◌, inl, inr, Bool, true, false, not, some, List, [], ◌∷◌, ◌++◌, arith, ◌==◌,
  if◌then◌else◌, Bool-cases, All, All-imp, All-filter, All-append, All-and, length-filter-le,
  filter, find, length,
}
use re_dstm.Control.Outbox.{Item, delete_id}

abbrev pub has_id : ℕ → Item → Bool
has_id id x = x.id == id

abbrev pub Ascending : List Item → Type 0
Ascending [] = Unit
Ascending (x ∷ xs) = All (λ (y : Item). x.id < y.id) xs × Ascending xs

pub Ascending-filter : (p : Item → Bool) (xs : List Item) → Ascending xs → Ascending (filter p xs)
Ascending-filter p [] a = tt
Ascending-filter p (x ∷ xs) a = elim (Bool-cases (p x)) [
  | inl y ↦ rw y (All-filter (λ (y : Item). x.id < y.id) p xs a.0, Ascending-filter p xs a.1)
  | inr n ↦ rw n (Ascending-filter p xs a.1)
]

pub Ascending-append :
    (xs : List Item) (n : Item)
    → Ascending xs
    → All (λ (x : Item). x.id < n.id) xs
    → Ascending (xs ++ n ∷ [])
Ascending-append [] n a h = (tt, tt)
Ascending-append (x ∷ xs) n a h = (
  All-append (λ (y : Item). x.id < y.id) xs (n ∷ []) a.0 (h.0, tt),
  Ascending-append xs n a.1 h.1,
)

above :
    (x : Item) (k : ℕ) (xs : List Item)
    → All (λ (y : Item). x.id < y.id) xs
    → x.id ≡ k
    → All (λ (y : Item). has_id k y ≡ false) xs
above x k xs h e =
    All-imp (λ (y : Item). x.id < y.id) (λ (y : Item). has_id k y ≡ false) (λ y lt. ground arith) xs
      h

-- Each item is what its id finds.
pub found_self :
    (xs : List Item) → Ascending xs → All (λ (x : Item). find (has_id x.id) xs ≡ some x) xs
unfolding find
found_self [] a = tt
found_self (x ∷ xs) a = (
  rw (self x),
  All-imp (λ (y : Item). (x.id < y.id) × (find (has_id y.id) xs ≡ some y))
      (λ (y : Item). (if has_id y.id x then some x else find (has_id y.id) xs) ≡ some y)
      (λ y h. rw (other x y h.0) h.1) xs (both xs a.0 (found_self xs a.1)),
)
  where
    self : (x : Item) → has_id x.id x ≡ true
    self x = ground arith

    other : (x y : Item) → x.id < y.id → has_id y.id x ≡ false
    other x y lt = ground arith

    both :
        (ys : List Item)
        → All (λ (y : Item). x.id < y.id) ys
        → All (λ (y : Item). find (has_id y.id) xs ≡ some y) ys
        → All (λ (y : Item). (x.id < y.id) × (find (has_id y.id) xs ≡ some y)) ys
    both ys p q = All-and _ _ ys p q

-- What holds of the item that an id finds holds of all items with it.
pub All-with_id :
    (P : Item → Type 0) (k : ℕ) (xs : List Item) (v : Item)
    → Ascending xs
    → find (has_id k) xs ≡ some v
    → P v
    → All (λ (x : Item). has_id k x ≡ true → P x) xs
unfolding find
All-with_id P k [] v a e h = tt
All-with_id P k (x ∷ xs) v a e h = elim (Bool-cases (has_id k x)) [
  | inl y ↦
      let e' : some x ≡ some v = rw y at e in
      let same : x ≡ v = cc in
      (
        λ _. rw same h,
        All-imp (λ (y : Item). has_id k y ≡ false) (λ (y : Item). has_id k y ≡ true → P y)
            (λ y n t. absurd (clash (has_id k y) n t)) xs (above x k xs a.0 (ground arith)),
      )
  | inr n ↦ (λ t. absurd (clash (has_id k x) n t), All-with_id P k xs v a.1 (rw n at e) h)
]
  where
    clash : (b : Bool) → b ≡ false → b ≡ true → ⊥
    clash b n t = cc

pub length-delete_id :
    (k : ℕ) (xs : List Item) (v : Item)
    → find (has_id k) xs ≡ some v
    → length (delete_id k xs) < length xs
unfolding find
length-delete_id k [] v e = cc
length-delete_id k (x ∷ xs) v e = elim (Bool-cases (has_id k x)) [
  | inl y ↦ rw y (omega (arith, length-filter-le (λ (x : Item). not (has_id k x)) xs))
  | inr n ↦ rw n (omega (arith, length-delete_id k xs v (rw n at e)))
]
