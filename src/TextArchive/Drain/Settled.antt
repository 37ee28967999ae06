-- ===== src/TextArchive/Drain/Settled.antt =====
-- That a batch which was imported, rejected or has failed is not picked again in the same run.
use re_dstm.Prelude.{
  ℕ, ◌+◌, ◌≤◌, ◌<◌, String, ◌≡◌, refl, sym, ap, ◌∙◌, ◌⊎◌, inl, inr, Bool, true, false, not, ◌&&◌,
  some, List, [], ◌∷◌, arith, ltb, str_eq, str_eq_iff, Bool-cases, All, update_where,
  All-update_where,
}
use re_dstm.TextArchive.Attempts.{
  Attempt, Slot, delay, read, backoff_active, previous, begin, record_failure, clear, write,
}
use re_dstm.TextArchive.Attempts.Laws.{read-clear_other, read-write, read-write_other, delay-le}
use re_dstm.TextArchive.Drain.{
  Batch, named, is_open, next_ready_batch, Import, window_shut, unstarted, unfinished, imported,
  refused, broke, State, mark, with_receipt, update, Ended, outcome, import_one,
}

-- the marks that let no batch be tried twice in one run are written
abbrev pub leaves_mark : Import → Bool
leaves_mark unstarted = false
leaves_mark (refused marked) = marked
leaves_mark _ = true

-- no directory of the name is open
abbrev pub Closed : List Batch → String → Type 0
Closed inbox id = All (λ (b : Batch). named id b ≡ true → is_open b ≡ false) inbox

-- the batch backs off till the time or later
pub record Waits (slots : List Slot) (id : String) (until : ℕ) : Type 0 where
  attempt : Attempt
  found : read slots id ≡ some attempt
  late : until ≤ attempt.next_at

Waits-backoff :
    (slots : List Slot) (id : String) (until now : ℕ)
    → Waits slots id until
    → now < until
    → backoff_active slots id now ≡ true
unfolding backoff_active
Waits-backoff slots id until now w lt =
    rw w.found (before now w.attempt.next_at (omega (arith, lt, w.late)))
  where
    before : (n m : ℕ) → n < m → ltb n m ≡ true
    before n m h = ground arith

write-Waits :
    (slots : List Slot) (id : String) (n : ℕ) (reason : String) (now until : ℕ)
    → until ≤ now + 300
    → Waits (write slots id n reason now) id until
write-Waits slots id n reason now until le = record {
  attempt = record { attempts = n; next_at = now + delay n; reason = reason };
  found = read-write slots id n reason now;
  late = omega (arith, le, delay-le n);
}

abbrev pub Shut : ℕ → State → String → Type 0
Shut until s id = Closed s.inbox id ⊎ Waits s.slots id until

open_only : (p q : Bool) → (p && not q) ≡ true → p ≡ false → ⊥
open_only p q y n = absurd (clash (sym n ∙ (ground arith)))
  where
    clash : false ≡ true → ⊥
    clash e = cc

free_only : (p q : Bool) → (p && not q) ≡ true → q ≡ true → ⊥
free_only true true y t = cc
free_only true false y t = cc
free_only false q y t = cc

-- the batch that is picked is open and not backing off
pub picked-not_shut :
    (inbox : List Batch) (slots : List Slot) (now until : ℕ) (id : String)
    → next_ready_batch inbox slots now ≡ some id
    → now < until
    → Closed inbox id ⊎ Waits slots id until
    → ⊥
unfolding next_ready_batch
picked-not_shut [] slots now until id e lt s = cc
picked-not_shut (b ∷ inbox) slots now until id e lt s =
    elim (Bool-cases (is_open b && not (backoff_active slots b.name now))) [
      | inr n ↦ picked-not_shut inbox slots now until id (rw n at e) lt (later s)
      | inl y ↦ here (rw y at e) y s
    ]
  where
    later : Closed (b ∷ inbox) id ⊎ Waits slots id until → Closed inbox id ⊎ Waits slots id until
    later (inl c) = inl c.1
    later (inr w) = inr w

    same : some b.name ≡ some id → b.name ≡ id
    same e = cc

    here :
        some b.name ≡ some id
        → (is_open b && not (backoff_active slots b.name now)) ≡ true
        → Closed (b ∷ inbox) id ⊎ Waits slots id until
        → ⊥
    here e y (inl c) =
        open_only (is_open b) (backoff_active slots b.name now) y
          (c.0 ((str_eq_iff b.name id).1 (same e)))
    here e y (inr w) =
        free_only (is_open b) (backoff_active slots b.name now) y
          (ap (λ n. backoff_active slots n now) (same e) ∙ Waits-backoff slots id until now w lt)

-- a change of a batch's directory that keeps the name and opens nothing
record IsClosing (f : Batch → Batch) : Type 0 where
  keeps : (b : Batch) → (f b).name ≡ b.name
  closes : (b : Batch) → is_open (f b) ≡ false

mark-IsClosing : IsClosing (mark true)
mark-IsClosing = record { keeps = λ b. refl; closes = λ b. ground arith }

with_receipt-IsClosing : IsClosing with_receipt
with_receipt-IsClosing = record { keeps = λ b. refl; closes = λ b. ground arith }

module _ (f : Batch → Batch) (k : IsClosing f) (id : String) where
  Closed-kept :
      (inbox : List Batch) (other : String)
      → Closed inbox other
      → Closed (update_where (named id) f inbox) other
  Closed-kept inbox other h =
      All-update_where (λ b. named other b ≡ true → is_open b ≡ false) (named id) f
        (λ b _ _ _. k.closes b) inbox h

  Closed-now : (inbox : List Batch) → Closed (update_where (named id) f inbox) id
  unfolding update_where
  Closed-now [] = tt
  Closed-now (b ∷ inbox) = (
    elim (Bool-cases (named id b)) [
      | inl y ↦ rw y (λ _. k.closes b)
      | inr n ↦ rw n (λ y. absurd (clash (sym n ∙ y)))
    ],
    Closed-now inbox,
  )
    where
      clash : false ≡ true → ⊥
      clash e = cc

Waits-same :
    (slots slots' : List Slot) (id : String) (until : ℕ)
    → read slots' id ≡ read slots id
    → Waits slots id until
    → Waits slots' id until
Waits-same slots slots' id until same w = record {
  attempt = w.attempt;
  found = same ∙ w.found;
  late = w.late;
}

-- what an import leaves of the batches that are not to be tried again, itself among them
abbrev pub Settled : ℕ → State → String → Ended → Type 0
Settled until s id (outcome o s') =
    ((other : String) → str_eq other id ≡ false → Shut until s other → Shut until s' other)
    × Shut until s' id
Settled until s id _ = Unit

module _ (until now : ℕ) (soon : until ≤ now + 300) (s : State) (id : String) where
  begun :
      (other : String)
      → str_eq other id ≡ false
      → read (begin s.slots id now) other ≡ read s.slots other
  unfolding begin
  begun other n = read-write_other s.slots id other (previous s.slots id + 1) "import_started" now n

  cleared :
      (other : String)
      → str_eq other id ≡ false
      → read (clear (begin s.slots id now) id) other ≡ read s.slots other
  cleared other n = read-clear_other (begin s.slots id now) id other n ∙ begun other n

  failed_other :
      (error : String) (writable : Bool) (other : String)
      → str_eq other id ≡ false
      → read (record_failure (begin s.slots id now) id error writable now) other
        ≡ read s.slots other
  unfolding record_failure
  failed_other error true other n =
      read-write_other (begin s.slots id now) id other _ _ now n ∙ begun other n
  failed_other error false other n = begun other n

  failed_now :
      (error : String) (writable : Bool)
      → Waits (record_failure (begin s.slots id now) id error writable now) id until
  unfolding record_failure begin
  failed_now error true = write-Waits (begin s.slots id now) id _ _ now until soon
  failed_now error false =
      write-Waits s.slots id (previous s.slots id + 1) "import_started" now until soon

  moved :
      (f : Batch → Batch)
      → IsClosing f
      → (other : String) → str_eq other id ≡ false
      → Shut until s other
      → Shut until (update id f (record s { slots = clear (begin s.slots id now) id })) other
  moved f k other n (inl c) = inl (Closed-kept f k id s.inbox other c)
  moved f k other n (inr w) = inr (Waits-same s.slots _ other until (cleared other n) w)

  waiting :
      (error : String) (writable : Bool) (other : String)
      → str_eq other id ≡ false
      → Shut until s other
      → Shut until
          (record s { slots = record_failure (begin s.slots id now) id error writable now })
          other
  waiting error writable other n (inl c) = inl c
  waiting error writable other n (inr w) =
      inr (Waits-same s.slots _ other until (failed_other error writable other n) w)

  pub import_one-Settled :
      (i : Import) → leaves_mark i ≡ true → Settled until s id (import_one s id now i)
  unfolding import_one
  import_one-Settled window_shut h = tt
  import_one-Settled unstarted h = cc
  import_one-Settled unfinished h = tt
  import_one-Settled imported h = (
    moved with_receipt with_receipt-IsClosing,
    inl (Closed-now with_receipt with_receipt-IsClosing id s.inbox),
  )
  import_one-Settled (refused true) h =
      (moved (mark true) mark-IsClosing, inl (Closed-now (mark true) mark-IsClosing id s.inbox))
  import_one-Settled (refused false) h = cc
  import_one-Settled (broke error writable) h =
      (waiting error writable, inr (failed_now error writable))
