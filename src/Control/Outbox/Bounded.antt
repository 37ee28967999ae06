-- ===== src/Control/Outbox/Bounded.antt =====
-- Every call on the outbox keeps it within its limits, and a report is queued once.
use re_dstm.Prelude.{
  ℕ, String, ◌≡◌, refl, inl, inr, Bool, true, false, not, none, some, List, [], ◌∷◌, ◌++◌, Result,
  ok, err, str_eq_refl, Bool-cases, Option-cases, filter, find, suc, All, All-filter, ◌==◌,
}
use re_dstm.Prelude.Ensures.{Ensures, Ensures-ok, Ensures-raise_if, Ensures-bind}
use re_dstm.Control.Json.{Fields}
use re_dstm.Control.Outbox.{
  Item, Outbox, has_key, has_dedupe, insert_item, enqueue, acknowledge, reject, record_rejection,
  defer,
}
use re_dstm.Control.Outbox.Eviction.{make_room-All}
use re_dstm.Control.Outbox.Inserting.{
  IsOutbox, filter-IsOutbox, defer-IsOutbox, insert_item-IsOutbox,
}

-- the calls that write to the outbox
pub data OutboxOp : Type 0 where
  enqueue_report : (kind path : String) (payload : Fields) (key : String) (now : ℕ) → OutboxOp
  acknowledge_item : (id : ℕ) → OutboxOp
  reject_item : (id : ℕ) (code : String) (now : ℕ) → OutboxOp
  count_rejected : (code : String) (now : ℕ) → OutboxOp
  defer_item : (id next : ℕ) → OutboxOp

abbrev kept : Outbox → Result (ℕ × Outbox) → Outbox
kept box (ok r) = r.1
kept box (err e) = box

abbrev kept_box : Outbox → Result Outbox → Outbox
kept_box box (ok b) = b
kept_box box (err e) = box

-- A call that raises rolls its transaction back.
module _ (lower : String → String) (dumps : Fields → String) where
  unfoldable pub outbox_step : Outbox → OutboxOp → Outbox
  outbox_step box (enqueue_report kind path payload key now) =
      kept box (enqueue lower dumps box kind path payload key now)
  outbox_step box (acknowledge_item id) = acknowledge box id
  outbox_step box (reject_item id code now) = kept_box box (reject box id code now)
  outbox_step box (count_rejected code now) = kept_box box (record_rejection box code now)
  outbox_step box (defer_item id next) = defer box id next

  unfoldable pub outbox_steps : Outbox → List OutboxOp → Outbox
  outbox_steps box [] = box
  outbox_steps box (o ∷ os) = outbox_steps (outbox_step box o) os

reject-IsOutbox :
    (box : Outbox) (id : ℕ) (code : String) (now : ℕ)
    → IsOutbox box
    → Ensures (λ b. IsOutbox b) (reject box id code now)
unfolding reject
reject-IsOutbox box id code now w = Ensures-raise_if _ _ _ λ _. Ensures-raise_if _ _ _ λ _.
    Ensures-ok _ (
      let f = filter-IsOutbox (λ (x : Item). not (x.id == id)) w in
      record {
        ascending = f.ascending;
        handed_out = f.handed_out;
        bytes_bounded = f.bytes_bounded;
        events_bounded = f.events_bounded;
      })

record_rejection-IsOutbox :
    (box : Outbox) (code : String) (now : ℕ)
    → IsOutbox box
    → Ensures (λ b. IsOutbox b) (record_rejection box code now)
unfolding record_rejection
record_rejection-IsOutbox box code now w = Ensures-raise_if _ _ _ λ _. Ensures-ok _ (record {
  ascending = w.ascending;
  handed_out = w.handed_out;
  bytes_bounded = w.bytes_bounded;
  events_bounded = w.events_bounded;
})

keeps_box :
    (box : Outbox)
    → IsOutbox box
    → (r : Result Outbox) → Ensures (λ b. IsOutbox b) r
    → IsOutbox (kept_box box r)
keeps_box box w (ok b) h = h.at b refl
keeps_box box w (err e) h = w

module _ (lower : String → String) (dumps : Fields → String) where
  enqueue-IsOutbox :
      (box : Outbox) (kind path : String) (payload : Fields) (key : String) (now : ℕ)
      → IsOutbox box
      → Ensures
          (λ (r : ℕ × Outbox). IsOutbox r.1)
          (enqueue lower dumps box kind path payload key now)
  unfolding enqueue
  enqueue-IsOutbox box kind path payload key now w = Ensures-bind _ _ λ priority _.
      Ensures-raise_if _ _ _ λ _.
        Ensures-raise_if _ _ _
          λ _. Ensures-bind _ _ λ events _. Ensures-raise_if _ _ _ λ _. insert_item-IsOutbox box _ w

  outbox_step-IsOutbox :
      (box : Outbox) (o : OutboxOp) → IsOutbox box → IsOutbox (outbox_step lower dumps box o)
  unfolding outbox_step
  outbox_step-IsOutbox box (enqueue_report kind path payload key now) w =
      keeps _ (enqueue-IsOutbox box kind path payload key now w)
    where
      keeps :
          (r : Result (ℕ × Outbox))
          → Ensures (λ (x : ℕ × Outbox). IsOutbox x.1) r
          → IsOutbox (kept box r)
      keeps (ok x) h = h.at x refl
      keeps (err e) h = w
  outbox_step-IsOutbox box (acknowledge_item id) w =
      unfold acknowledge in filter-IsOutbox (λ (x : Item). not (x.id == id)) w
  outbox_step-IsOutbox box (reject_item id code now) w =
      keeps_box box w _ (reject-IsOutbox box id code now w)
  outbox_step-IsOutbox box (count_rejected code now) w =
      keeps_box box w _ (record_rejection-IsOutbox box code now w)
  outbox_step-IsOutbox box (defer_item id next) w = defer-IsOutbox id next w

  -- From an outbox within its limits, whatever calls follow, the queued payload bytes and events stay
  -- within the limits, ids ascend, and all were handed out.
  pub outbox_steps-IsOutbox :
      (box : Outbox) (os : List OutboxOp)
      → IsOutbox box
      → IsOutbox (outbox_steps lower dumps box os)
  unfolding outbox_steps
  outbox_steps-IsOutbox box [] w = w
  outbox_steps-IsOutbox box (o ∷ os) w =
      outbox_steps-IsOutbox (outbox_step lower dumps box o) os (outbox_step-IsOutbox box o w)

has_key_refl : (new : Item) → has_key new.idempotency_key new ≡ true
has_key_refl new = str_eq_refl new.idempotency_key

find-none : (p : Item → Bool) (xs : List Item) → find p xs ≡ none → All (λ x. p x ≡ false) xs
unfolding find
find-none p [] e = tt
find-none p (x ∷ xs) e = elim (Bool-cases (p x)) [
  | inl y ↦ cc (rw y at e)
  | inr n ↦ (n, find-none p xs (rw n at e))
]

find-last :
    (p : Item → Bool) (xs : List Item) (x : Item)
    → All (λ y. p y ≡ false) xs
    → p x ≡ true
    → find p (xs ++ x ∷ []) ≡ some x
unfolding find
find-last p [] x h e = rw e refl
find-last p (y ∷ ys) x h e = rw h.0 (find-last p ys x h.1 e)

queued_once :
    (box : Outbox) (item : Item) (again : Item)
    → find (has_key again.idempotency_key) box.items ≡ some item
    → insert_item box again ≡ ok (item.id, box)
unfolding insert_item
queued_once box item again e = rw (e, insert_item) refl

insert_item-keeps_id :
    (box : Outbox) (new again : Item)
    → again.idempotency_key ≡ new.idempotency_key
    → Ensures (λ (r : ℕ × Outbox). insert_item r.1 again ≡ ok (r.0, r.1)) (insert_item box new)
unfolding insert_item
insert_item-keeps_id box new again same =
    elim (Option-cases (find (has_key new.idempotency_key) box.items)) [
      | inr (old, e) ↦
          rw (e, insert_item) (Ensures-ok (old.id, box) (queued_once box old again (rw same e)))
      | inl e ↦
          let others = filter (λ (x : Item). not (has_dedupe new.dedupe_key x)) box.items in
          rw (e, insert_item)
            (Ensures-bind _ _ λ kept done.
              let absent =
                (make_room-All box others new.payload_bytes new.event_count new.priority
                    (λ (x : Item). has_key new.idempotency_key x ≡ false)
                    (All-filter (λ (x : Item). has_key new.idempotency_key x ≡ false) _ box.items
                      (find-none _ box.items e))).at
                  kept done in
              let added = record new { id = suc box.last_id } in
              Ensures-ok _ (
                queued_once _ added again (
                  rw same (
                    find-last (has_key new.idempotency_key) kept added absent (has_key_refl new)))))
    ]

-- A report that `insert_item` has queued is queued once: a call with the same idempotency key on the
-- outbox that the first left gives the same id and changes nothing.
pub insert_item-twice :
    (box : Outbox) (new again : Item) (id : ℕ) (after : Outbox)
    → again.idempotency_key ≡ new.idempotency_key
    → insert_item box new ≡ ok (id, after)
    → insert_item after again ≡ ok (id, after)
insert_item-twice box new again id after same done =
    (insert_item-keeps_id box new again same).at (id, after) done
