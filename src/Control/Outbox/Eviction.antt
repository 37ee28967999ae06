-- ===== src/Control/Outbox/Eviction.antt =====
-- `_make_room`: it ends, it makes the room, and it evicts nothing that is protected.
use re_dstm.Prelude.{
  ℕ, zero, suc, ◌<◌, ◌≡◌, refl, ap, ◌∙◌, inl, inr, Bool, true, false, not, ◌&&◌, ◌||◌, Option, none,
  some, List, [], ◌∷◌, arith, Result, ok, err, outbox_full_error, ltb, ◌==◌, Bool-cases, leb,
  Option-cases, All, All-filter, filter_passes, filter, find, length,
}
use re_dstm.Prelude.Ensures.{Ensures, Ensures-ok, Ensures-err, Ensures-raise_if}
use re_dstm.Control.Outbox.{
  Item, Outbox, fits, lower_of, lowest, is_evictable, delete_id, evict, or_full, make_room,
}
use re_dstm.Control.Outbox.Ids.{
  has_id, Ascending, Ascending-filter, found_self, All-with_id, length-delete_id,
}

lowest-All : (P : Item → Type 0) (xs : List Item) (v : Item) → All P xs → lowest xs ≡ some v → P v
unfolding lowest
lowest-All P [] v h e = cc
lowest-All P (x ∷ xs) v h e =
    let same : lower_of x (lowest xs) ≡ v = cc in
    rw (← same) (pick (lowest xs) (λ w e'. lowest-All P xs w h.1 e'))
  where
    pick : (o : Option Item) → ((w : Item) → o ≡ some w → P w) → P (lower_of x o)
    pick none k = h.0
    pick (some y) k =
        elim (Bool-cases
          (ltb y.priority x.priority || (y.priority == x.priority && ltb y.id x.id))) [
            | inl t ↦ rw t (k y refl)
            | inr n ↦ rw n h.0
          ]

lowest-none : (xs : List Item) → lowest xs ≡ none → xs ≡ []
unfolding lowest
lowest-none [] e = refl
lowest-none (x ∷ xs) e = cc

module _ (max_bytes max_events bytes events priority : ℕ) where
  abbrev pub room : List Item → Bool
  room = fits max_bytes max_events bytes events

  -- An item of this priority may not push out one of the highest priority, 100, nor one above its own.
  abbrev pub is_protected : Item → Bool
  is_protected x = leb 100 x.priority || ltb priority x.priority

  abbrev pub protected : List Item → List Item
  protected = filter is_protected

  evictable_unprotected : (x : Item) → is_evictable priority x ≡ true → is_protected x ≡ false
  evictable_unprotected x h = ground arith

  others_protected : (x : Item) → is_evictable priority x ≡ false → is_protected x ≡ true
  others_protected x h = ground arith

  nothing_evictable : (xs : List Item) → filter (is_evictable priority) xs ≡ [] → protected xs ≡ xs
  nothing_evictable [] e = refl
  nothing_evictable (x ∷ xs) e = elim (Bool-cases (is_evictable priority x)) [
    | inl y ↦ cc (rw y at e)
    | inr n ↦ rw (others_protected x n) (ap (λ ys. x ∷ ys) (nothing_evictable xs (rw n at e)))
  ]

  protected-delete_id :
      (k : ℕ) (xs : List Item)
      → All (λ (x : Item). has_id k x ≡ true → is_evictable priority x ≡ true) xs
      → protected (delete_id k xs) ≡ protected xs
  protected-delete_id k [] h = refl
  protected-delete_id k (x ∷ xs) h = elim (Bool-cases (has_id k x)) [
    | inl y ↦ rw y (rw (evictable_unprotected x (h.0 y)) (protected-delete_id k xs h.1))
    | inr n ↦ elim (Bool-cases (is_protected x)) [
      | inr v ↦ rw n (rw v (protected-delete_id k xs h.1))
      | inl v ↦ rw n (rw v (ap (λ ys. x ∷ ys) (protected-delete_id k xs h.1)))
    ]
  ]

  victim_found :
      (xs : List Item) (v : Item)
      → Ascending xs
      → lowest (filter (is_evictable priority) xs) ≡ some v
      → (find (has_id v.id) xs ≡ some v) × (is_evictable priority v ≡ true)
  victim_found xs v a e = (
    lowest-All (λ x. find (has_id x.id) xs ≡ some x) (filter (is_evictable priority) xs) v
        (All-filter (λ x. find (has_id x.id) xs ≡ some x) (is_evictable priority) xs
          (found_self xs a))
        e,
    lowest-All (λ x. is_evictable priority x ≡ true) (filter (is_evictable priority) xs) v
        (filter_passes (is_evictable priority) xs) e,
  )

  -- what eviction owes for these items
  abbrev pub Settles : List Item → Result (List Item) → Type 0
  Settles items (ok kept) = (room kept ≡ true) × (protected kept ≡ protected items) × Ascending kept
  Settles items (err e) = room (protected items) ≡ false

  Settles-delete :
      (xs ys : List Item) (r : Result (List Item))
      → protected ys ≡ protected xs
      → Settles ys r
      → Settles xs r
  Settles-delete xs ys (ok kept) e s = (s.0, s.1 ∙ e, s.2)
  Settles-delete xs ys (err x) e s = rw (← e) s

  -- With fuel for one round more than there are items, eviction ends. If it gives a list, the new item
  -- fits beside it and every protected item is still there, in order; if it raises, the protected items
  -- alone leave no room.
  pub evict-exact :
      (fuel : ℕ) (items : List Item)
      → length items < fuel
      → Ascending items
      → (r : Result (List Item)) × (evict fuel max_bytes max_events bytes events priority items
          ≡ some r)
        × Settles items r
  unfolding evict
  evict-exact zero items enough a = absurd (omega arith)
  evict-exact (suc fuel) items enough a = elim (Bool-cases (room items)) [
    | inl y ↦ (ok items, rw (y, evict), (y, refl, a))
    | inr n ↦ elim (Option-cases (lowest (filter (is_evictable priority) items))) [
      | inl e ↦ (
        err (outbox_full_error "outbox is full of protected terminal events"),
        rw (n, evict) (rw (e, evict)),
        rw (nothing_evictable items (lowest-none _ e)) n,
      )
      | inr (v, e) ↦
          let (found, cheap) = victim_found items v a e in
          let (r, done, settled) =
            evict-exact fuel (delete_id v.id items)
              (omega (arith, length-delete_id v.id items v found)) (Ascending-filter _ items a) in
          (
            r,
            rw (n, evict) (rw (e, evict) done),
            Settles-delete items (delete_id v.id items) r
                (protected-delete_id v.id items
                  (All-with_id (λ x. is_evictable priority x ≡ true) v.id items v a found cheap))
                settled,
          )
    ]
  ]

  abbrev AllIn : (Item → Type 0) → Option (Result (List Item)) → Type 0
  AllIn P (some (ok kept)) = All P kept
  AllIn P _ = Unit

  evict-All :
      (P : Item → Type 0) (fuel : ℕ) (items : List Item)
      → All P items
      → AllIn P (evict fuel max_bytes max_events bytes events priority items)
  unfolding evict
  evict-All P zero items h = tt
  evict-All P (suc fuel) items h = elim (Bool-cases (room items)) [
    | inl y ↦ rw (y, evict) h
    | inr n ↦ elim (Option-cases (lowest (filter (is_evictable priority) items))) [
      | inl e ↦ rw (n, evict) (rw (e, evict) tt)
      | inr (v, e) ↦
          rw (n, evict)
            (rw (e, evict)
              (evict-All P fuel (delete_id v.id items)
                (All-filter P (λ (x : Item). not (has_id v.id x)) items h)))
    ]
  ]

module _ (box : Outbox) (items : List Item) (bytes events priority : ℕ) where
  -- `_make_room` on items with ascending ids: what it keeps leaves room for the new item, and holds all
  -- protected items.
  pub make_room-Settles :
      Ascending items
      → Ensures
          (λ kept. Settles box.max_bytes box.max_events bytes events priority items (ok kept))
          (make_room box items bytes events priority)
  unfolding make_room
  make_room-Settles a = Ensures-raise_if _ _ _ λ _.
      let (r, done, s) =
        evict-exact box.max_bytes box.max_events bytes events priority (suc (length items)) items
          (omega arith) a in
      rw done (settled r s)
    where
      settled :
          (r : Result (List Item))
          → Settles box.max_bytes box.max_events bytes events priority items r
          → Ensures
              (λ kept. Settles box.max_bytes box.max_events bytes events priority items (ok kept))
              r
      settled (ok kept) s = Ensures-ok kept s
      settled (err e) s = Ensures-err e

  pub make_room-All :
      (P : Item → Type 0)
      → All P items
      → Ensures (All P) (make_room box items bytes events priority)
  unfolding make_room
  make_room-All P h = Ensures-raise_if _ _ _ λ _.
      all_in _ (
        evict-All box.max_bytes box.max_events bytes events priority P (suc (length items)) items h)
    where
      all_in :
          (o : Option (Result (List Item)))
          → AllIn box.max_bytes box.max_events bytes events priority P o
          → Ensures (All P) (or_full o)
      all_in none h = Ensures-err _
      all_in (some (ok kept)) h = Ensures-ok kept h
      all_in (some (err e)) h = Ensures-err e
