-- ===== src/Control/Client/Delivery.antt =====
-- What a flush does to the queue.
use re_dstm.Prelude.{
  ℕ, zero, suc, ◌+◌, ◌<◌, String, ◌≡◌, refl, ap, ◌∙◌, ◌⊎◌, inl, inr, Bool, true, false, ◌||◌,
  Option, none, some, List, [], ◌∷◌, ◌++◌, arith, ◌>>=◌, raise_if, ltb, ◌==◌, if◌then◌else◌,
  Bool-cases, Result-cases, All, take, length, update_where,
}
use re_dstm.Prelude.Ensures.{Ensures, Ensures-ok, Ensures-raise_if}
use re_dstm.Control.Outbox.{
  Item, Outbox, Rejections, delete_id, defer_row, until_deferred, is_deferred, count_rejection,
  pending, acknowledge, reject, defer,
}
use re_dstm.Control.Outbox.Ids.{Ascending}
use re_dstm.Control.Client.{
  Client, Answer, Disposal, acknowledged, set_aside, postponed, Flushed, post_guards, dispose,
  flush_items, flush, far_future,
}

-- `rejected_count` of `control_rejections`
abbrev pub rejected_total : Outbox → ℕ
rejected_total box = elim box.rejections [ none ↦ 0 | some r ↦ r.rejected_count ]

-- The list, or the list with its first report put off for another attempt.
abbrev pub IsLeft : List Item → List Item → Type 0
IsLeft now [] = now ≡ []
IsLeft now (x ∷ xs) = (now ≡ x ∷ xs) ⊎ ((next : ℕ) × (now ≡ defer_row next x ∷ xs))

same_IsLeft : (now xs : List Item) → now ≡ xs → IsLeft now xs
same_IsLeft now [] e = e
same_IsLeft now (x ∷ xs) e = inl e

untouched : (k : ℕ) (xs : List Item) → All (λ (y : Item). k < y.id) xs → delete_id k xs ≡ xs
untouched k [] h = refl
untouched k (x ∷ xs) h = rw (later k x h.0) (ap (λ ys. x ∷ ys) (untouched k xs h.1))
  where
    later : (k : ℕ) (x : Item) → k < x.id → (x.id == k) ≡ false
    later k x lt = ground arith

delete_head : (x : Item) (xs : List Item) → Ascending (x ∷ xs) → delete_id x.id (x ∷ xs) ≡ xs
delete_head x xs a = rw (self x.id) (untouched x.id xs a.0)
  where
    self : (k : ℕ) → (k == k) ≡ true
    self k = ground arith

not_deferred :
    (k next : ℕ) (xs : List Item)
    → All (λ (y : Item). k < y.id) xs
    → update_where (λ (y : Item). y.id == k) (defer_row next) xs ≡ xs
unfolding update_where
not_deferred k next [] h = refl
not_deferred k next (x ∷ xs) h = rw (later k x h.0) (ap (λ ys. x ∷ ys) (not_deferred k next xs h.1))
  where
    later : (k : ℕ) (x : Item) → k < x.id → (x.id == k) ≡ false
    later k x lt = ground arith

defer_head :
    (x : Item) (next : ℕ) (xs : List Item)
    → Ascending (x ∷ xs)
    → update_where (λ (y : Item). y.id == x.id) (defer_row next) (x ∷ xs) ≡ defer_row next x ∷ xs
unfolding update_where
defer_head x next xs a =
    rw (self x.id) (ap (λ ys. defer_row next x ∷ ys) (not_deferred x.id next xs a.0))
  where
    self : (k : ℕ) → (k == k) ≡ true
    self k = ground arith

reject-counts :
    (box : Outbox) (id : ℕ) (code : String) (now : ℕ)
    → Ensures
        (λ (b : Outbox).
          (b.items ≡ delete_id id box.items) × (rejected_total b ≡ suc (rejected_total box)))
        (reject box id code now)
unfolding reject
reject-counts box id code now =
    Ensures-raise_if _ _ _
      λ _. Ensures-raise_if _ _ _ λ _. Ensures-ok _ (refl, total box.rejections)
  where
    total :
        (r : Option Rejections)
        → rejected_total (record box { rejections = some (count_rejection r code now) })
          ≡ suc (rejected_total (record box { rejections = r }))
    total none = refl
    total (some r) = ground arith

-- What a flush has done: it took reports off the front, and each was sent or counted as rejected.
pub record Advanced (before : List Item) (count : ℕ) (f : Flushed) : Type 0 where
  pub gone : List Item
  pub left : List Item
  pub split : before ≡ gone ++ left
  pub rest : IsLeft f.box.items left
  pub accounted : f.sent + rejected_total f.box ≡ count + length gone

stopped :
    (f : Flushed) (before : List Item)
    → IsLeft f.box.items before
    → Advanced before (f.sent + rejected_total f.box) f
stopped f before h = record {
  gone = [];
  left = before;
  split = refl;
  rest = h;
  accounted = omega arith;
}

one_more :
    (x : Item) (before : List Item) (count : ℕ) (f : Flushed)
    → Advanced before (suc count) f
    → Advanced (x ∷ before) count f
one_more x before count f a = record {
  gone = x ∷ a.gone;
  left = a.left;
  split = ap (λ ys. x ∷ ys) a.split;
  rest = a.rest;
  accounted = omega (arith, a.accounted);
}

Disposal-cases :
    (d : Disposal)
    → (d ≡ acknowledged)
      ⊎ (((code : String) × (d ≡ set_aside code)) ⊎ ((next : ℕ) × (d ≡ postponed next)))
Disposal-cases acknowledged = inl refl
Disposal-cases (set_aside code) = inr (inl (code, refl))
Disposal-cases (postponed next) = inr (inr (next, refl))

counted_once :
    (x : Item) (before : List Item) (count count' : ℕ) (f : Flushed)
    → count' ≡ suc count
    → Advanced before count' f
    → Advanced (x ∷ before) count f
counted_once x before count count' f e a = one_more x before count f (rw e at a)

flush_items-Advanced :
    (answers : Item → Answer) (c : Client) (box : Outbox) (sent : ℕ) (ys zs : List Item)
    → Ascending box.items
    → box.items ≡ ys ++ zs
    → Advanced (ys ++ zs) (sent + rejected_total box) (flush_items answers c box sent ys)
unfolding flush_items acknowledge defer
flush_items-Advanced answers c box sent [] zs a e = stopped _ zs (same_IsLeft _ zs e)
flush_items-Advanced answers c box sent (x ∷ ys) zs a e =
    elim (Result-cases (post_guards x.path x.idempotency_key x.payload_bytes)) [
      | inr (raised, g) ↦ rw (g, flush_items) (stopped _ (x ∷ ys ++ zs) (inl e))
      | inl (u, g) ↦ elim (Disposal-cases (dispose c x (answers x)).1) [
        | inl d ↦
            rw (g, flush_items)
              (rw (d, flush_items)
                (counted_once x (ys ++ zs) (sent + rejected_total box)
                  (suc sent + rejected_total box) _ (omega arith)
                  (flush_items-Advanced answers (dispose c x (answers x)).0 (acknowledge box x.id)
                    (suc sent) ys zs (rw shorter behind) shorter)))
        | inr (inl (code, d)) ↦ elim (Result-cases (reject box x.id code (answers x).wall)) [
          | inr (raised, r) ↦
              rw (g, flush_items)
                (rw (d, flush_items) (rw (r, flush_items) (stopped _ (x ∷ ys ++ zs) (inl e))))
          | inl (box', r) ↦
              let (items, total) = (reject-counts box x.id code (answers x).wall).at box' r in
              rw (g, flush_items)
                (rw (d, flush_items)
                  (rw (r, flush_items)
                    (counted_once x (ys ++ zs) (sent + rejected_total box)
                      (sent + rejected_total box') _ (omega (arith, total))
                      (flush_items-Advanced answers (dispose c x (answers x)).0 box' sent ys zs
                        (rw (items ∙ shorter) behind) (items ∙ shorter)))))
        ]
        | inr (inr (next, d)) ↦
            rw (g, flush_items)
              (rw (d, flush_items)
                (stopped _ (x ∷ ys ++ zs) (inr (next, rw e (defer_head x next (ys ++ zs) front)))))
      ]
    ]
  where
    front : Ascending (x ∷ ys ++ zs)
    front = rw e at a

    shorter : delete_id x.id box.items ≡ ys ++ zs
    shorter = rw e (delete_head x (ys ++ zs) front)

    behind : Ascending (ys ++ zs)
    behind = front.1

due_prefix :
    (now limit : ℕ) (xs : List Item)
    → (rest : List Item) × (xs ≡ until_deferred now (take limit xs) ++ rest)
due_prefix now zero xs = (xs, refl)
due_prefix now (suc limit) [] = ([], refl)
due_prefix now (suc limit) (x ∷ xs) = elim (Bool-cases (is_deferred now x)) [
  | inl y ↦ (x ∷ xs, rw y refl)
  | inr n ↦ let (rest, e) = due_prefix now limit xs in (rest, rw n (ap (λ ys. x ∷ ys) e))
]

from_zero :
    (before : List Item) (n : ℕ) (f : Flushed) → Advanced before (0 + n) f → Advanced before n f
from_zero before n f a = record {
  gone = a.gone;
  left = a.left;
  split = a.split;
  rest = a.rest;
  accounted = omega (arith, a.accounted);
}

-- A flush of an outbox whose ids ascend, whatever the reports are answered and whether it ends or
-- raises: it takes reports off the front of the queue only, the rest keep their order and are
-- unchanged but for the first, which may be put off, and each one gone was sent or counted as rejected.
pub flush-Advanced :
    (answers : Item → Answer) (c : Client) (box : Outbox) (limit monotonic wall : ℕ) (retry : Bool)
    → Ascending box.items
    → Advanced box.items (rejected_total box) (flush answers c box limit monotonic wall retry)
unfolding flush pending ◌>>=◌ raise_if
flush-Advanced answers c box limit monotonic wall retry a =
    from_zero box.items (rejected_total box) _
      (elim (Bool-cases (ltb monotonic c.unavailable_until)) [
        | inl y ↦ rw y (stopped _ box.items (same_IsLeft _ box.items refl))
        | inr n ↦ elim (Bool-cases (ltb limit 1 || ltb 50 limit)) [
          | inl bad ↦ rw n (rw bad (stopped _ box.items (same_IsLeft _ box.items refl)))
          | inr good ↦
              let (rest, e) = due_prefix (if retry then far_future else wall) limit box.items in
              let moved = flush_items-Advanced answers c box 0 _ rest a e in
              rw n (rw good (rw (← e) at moved))
        ]
      ])
