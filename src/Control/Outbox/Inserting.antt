-- ===== src/Control/Outbox/Inserting.antt =====
-- What every call on the outbox keeps, and that a report is queued once.
use re_dstm.Prelude.{
  ℕ, suc, ◌<◌, ◌≤◌, ◌≡◌, refl, inl, inr, Bool, true, not, List, [], ◌∷◌, ◌++◌, arith, Bool-cases,
  Option-cases, All, All-imp, All-filter, All-append, All-update_where, filter, find, sum_by,
  sum_by-append, update_row, update_where,
}
use re_dstm.Prelude.Ensures.{Ensures, Ensures-ok, Ensures-bind}
use re_dstm.Control.Outbox.{
  Item, Outbox, total_bytes, total_events, has_key, has_dedupe, defer_row, insert_item, defer,
}
use re_dstm.Control.Outbox.Ids.{Ascending, Ascending-filter, Ascending-append}
use re_dstm.Control.Outbox.Eviction.{room, make_room-Settles, make_room-All}

-- Ids ascend and were handed out, and the queue is within both limits.
pub record IsOutbox (box : Outbox) : Type 0 where
  pub ascending : Ascending box.items
  pub handed_out : All (λ (x : Item). x.id ≤ box.last_id) box.items
  pub bytes_bounded : total_bytes box.items ≤ box.max_bytes
  pub events_bounded : total_events box.items ≤ box.max_events

sum_by-filter-le :
    (f : Item → ℕ) (p : Item → Bool) (xs : List Item) → sum_by f (filter p xs) ≤ sum_by f xs
sum_by-filter-le f p [] = omega arith
sum_by-filter-le f p (x ∷ xs) = ground (arith, sum_by-filter-le f p xs)

pub filter-IsOutbox :
    (p : Item → Bool) {box : Outbox}
    → IsOutbox box
    → IsOutbox (record box { items = filter p box.items })
filter-IsOutbox p {box} w = record {
  ascending = Ascending-filter p box.items w.ascending;
  handed_out = All-filter (λ (x : Item). x.id ≤ box.last_id) p box.items w.handed_out;
  bytes_bounded =
      omega (arith, w.bytes_bounded, sum_by-filter-le (λ (x : Item). x.payload_bytes) p box.items);
  events_bounded =
      omega (arith, w.events_bounded, sum_by-filter-le (λ (x : Item). x.event_count) p box.items);
}

module _ (p : Item → Bool) (next : ℕ) where
  deferred_sum :
      (f : Item → ℕ)
      → ((x : Item) → f (defer_row next x) ≡ f x)
      → (xs : List Item) → sum_by f (update_where p (defer_row next) xs) ≡ sum_by f xs
  unfolding update_where
  deferred_sum f same [] = refl
  deferred_sum f same (x ∷ xs) = elim (Bool-cases (p x)) [
    | inl y ↦ rw y (rw (same x) (rw (deferred_sum f same xs)))
    | inr n ↦ rw n (rw (deferred_sum f same xs))
  ]

  deferred_id : (x : Item) → (update_row p (defer_row next) x).id ≡ x.id
  deferred_id x = elim (Bool-cases (p x)) [ inl y ↦ rw y | inr n ↦ rw n ]

  deferred-Ascending :
      (xs : List Item) → Ascending xs → Ascending (update_where p (defer_row next) xs)
  unfolding update_where
  deferred-Ascending [] a = tt
  deferred-Ascending (x ∷ xs) a = (
    rw (deferred_id x)
        (All-update_where (λ (y : Item). x.id < y.id) p (defer_row next) (λ y _ h. h) xs a.0),
    deferred-Ascending xs a.1,
  )

pub defer-IsOutbox : (id next : ℕ) {box : Outbox} → IsOutbox box → IsOutbox (defer box id next)
unfolding defer
defer-IsOutbox id next {box} w = record {
  ascending = deferred-Ascending _ next box.items w.ascending;
  handed_out =
      All-update_where (λ (x : Item). x.id ≤ box.last_id) _ (defer_row next) (λ x _ h. h) box.items
        w.handed_out;
  bytes_bounded =
      rw (deferred_sum _ next (λ (x : Item). x.payload_bytes) (λ x. refl) box.items)
        w.bytes_bounded;
  events_bounded =
      rw (deferred_sum _ next (λ (x : Item). x.event_count) (λ x. refl) box.items) w.events_bounded;
}

with_new :
    (box : Outbox) (kept : List Item) (new : Item)
    → Ascending kept
    → All (λ (x : Item). x.id ≤ box.last_id) kept
    → room box.max_bytes box.max_events new.payload_bytes new.event_count new.priority kept ≡ true
    → IsOutbox (record box {
      items = kept ++ record new { id = suc box.last_id } ∷ [];
      last_id = suc box.last_id;
    })
with_new box kept new a h fit = record {
  ascending =
      Ascending-append kept (record new { id = suc box.last_id }) a
        (All-imp (λ (x : Item). x.id ≤ box.last_id) (λ (x : Item). x.id < suc box.last_id)
          (λ x p. omega arith) kept h);
  handed_out =
      All-append (λ (x : Item). x.id ≤ suc box.last_id) kept
        (record new { id = suc box.last_id } ∷ [])
        (All-imp (λ (x : Item). x.id ≤ box.last_id) (λ (x : Item). x.id ≤ suc box.last_id)
          (λ x p. omega arith) kept h)
        (omega arith, tt);
  bytes_bounded =
      rw
        (sum_by-append (λ (x : Item). x.payload_bytes) kept
          (record new { id = suc box.last_id } ∷ []))
        (ground arith);
  events_bounded =
      rw
        (sum_by-append (λ (x : Item). x.event_count) kept
          (record new { id = suc box.last_id } ∷ []))
        (ground arith);
}

pub insert_item-IsOutbox :
    (box : Outbox) (new : Item)
    → IsOutbox box
    → Ensures (λ (r : ℕ × Outbox). IsOutbox r.1) (insert_item box new)
unfolding insert_item
insert_item-IsOutbox box new w =
    elim (Option-cases (find (has_key new.idempotency_key) box.items)) [
      | inr (old, e) ↦ rw (e, insert_item) (Ensures-ok (old.id, box) w)
      | inl e ↦
          let others = filter (λ (x : Item). not (has_dedupe new.dedupe_key x)) box.items in
          rw (e, insert_item)
            (Ensures-bind _ _ λ kept done.
              let s =
                (make_room-Settles box others new.payload_bytes new.event_count new.priority
                    (Ascending-filter _ box.items w.ascending)).at
                  kept done in
              Ensures-ok _ (
                with_new box kept new s.2
                  ((make_room-All box others new.payload_bytes new.event_count new.priority
                      (λ (x : Item). x.id ≤ box.last_id)
                      (All-filter (λ (x : Item). x.id ≤ box.last_id) _ box.items w.handed_out)).at
                    kept done)
                  s.0))
    ]
