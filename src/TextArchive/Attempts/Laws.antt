-- ===== src/TextArchive/Attempts/Laws.antt =====
-- What each operation on the attempt records leaves to be read.
use re_dstm.Prelude.{
  ℕ, suc, ◌+◌, ◌-◌, ◌≤◌, String, ◌≡◌, refl, inl, inr, true, false, none, some, List, [], ◌∷◌, arith,
  ltb, str_eq, str_eq_iff, str_eq_refl, Bool-cases, find,
}
use re_dstm.TextArchive.Attempts.{
  Slot, delay, of_batch, read, previous, clear, write, begin, not_ready,
}

find-clear : (slots : List Slot) (id : String) → find (of_batch id) (clear slots id) ≡ none
unfolding find clear
find-clear [] id = refl
find-clear (s ∷ slots) id = elim (Bool-cases (of_batch id s)) [
  | inl y ↦ rw y (find-clear slots id)
  | inr n ↦ rw n (rw n (find-clear slots id))
]

pub read-clear : (slots : List Slot) (id : String) → read (clear slots id) id ≡ none
unfolding read
read-clear slots id = rw (find-clear slots id)

pub read-write :
    (slots : List Slot) (id : String) (n : ℕ) (reason : String) (now : ℕ)
    → read (write slots id n reason now) id
      ≡ some (record { attempts = n; next_at = now + delay n; reason = reason })
unfolding read write find
read-write slots id n reason now = rw (str_eq_refl id)

other_batch :
    (id other : String) (s : Slot)
    → str_eq other id ≡ false
    → of_batch id s ≡ true
    → of_batch other s ≡ false
other_batch id other s n y =
    ground (arith, str_eq_iff s.batch_id id, str_eq_iff other id, str_eq_iff s.batch_id other)

find-clear_other :
    (slots : List Slot) (id other : String)
    → str_eq other id ≡ false
    → find (of_batch other) (clear slots id) ≡ find (of_batch other) slots
unfolding find clear
find-clear_other [] id other n = refl
find-clear_other (s ∷ slots) id other n = elim (Bool-cases (of_batch id s)) [
  | inl y ↦ rw (y, other_batch id other s n y) (find-clear_other slots id other n)
  | inr m ↦ elim (Bool-cases (of_batch other s)) [
    | inl k ↦ rw m (rw k)
    | inr k ↦ rw m (rw k (find-clear_other slots id other n))
  ]
]

pub read-clear_other :
    (slots : List Slot) (id other : String)
    → str_eq other id ≡ false
    → read (clear slots id) other ≡ read slots other
unfolding read
read-clear_other slots id other n = rw (find-clear_other slots id other n)

pub read-write_other :
    (slots : List Slot) (id other : String) (n : ℕ) (reason : String) (now : ℕ)
    → str_eq other id ≡ false
    → read (write slots id n reason now) other ≡ read slots other
unfolding read write find
read-write_other slots id other n reason now e =
    rw (swapped id other e) (rw (find-clear_other slots id other e))
  where
    swapped : (id other : String) → str_eq other id ≡ false → str_eq id other ≡ false
    swapped id other e = ground (arith, str_eq_iff id other, str_eq_iff other id)

pub delay-le : (n : ℕ) → 300 ≤ delay n
delay-le n = ground arith

pub previous-write :
    (slots : List Slot) (id : String) (n : ℕ) (reason : String) (now : ℕ)
    → previous (write slots id n reason now) id ≡ n
unfolding previous
previous-write slots id n reason now = rw (read-write slots id n reason now)

previous-clear : (slots : List Slot) (id : String) → previous (clear slots id) id ≡ 0
unfolding previous
previous-clear slots id = rw (read-clear slots id)

previous-not_ready :
    (slots : List Slot) (id : String) (now : ℕ)
    → previous (not_ready slots id now) id ≡ previous slots id - 1
unfolding not_ready
previous-not_ready slots id now = elim (Bool-cases (ltb 0 (previous slots id - 1))) [
  | inl y ↦ rw y (previous-write slots id (previous slots id - 1) "import_not_ready" now)
  | inr n ↦ rw n (omega (arith, previous-clear slots id, none_left (previous slots id - 1) n))
]
  where
    none_left : (n : ℕ) → ltb 0 n ≡ false → n ≡ 0
    none_left n h = ground arith

pub previous-begin :
    (slots : List Slot) (id : String) (now : ℕ)
    → previous (begin slots id now) id ≡ suc (previous slots id)
unfolding begin
previous-begin slots id now =
    omega (arith, previous-write slots id (previous slots id + 1) "import_started" now)

-- An attempt of a batch that turns out not to be ready leaves its number of attempts as it was.
pub previous-undo :
    (slots : List Slot) (id : String) (started ended : ℕ)
    → previous (not_ready (begin slots id started) id ended) id ≡ previous slots id
previous-undo slots id started ended =
    omega
      (arith, previous-not_ready (begin slots id started) id ended, previous-begin slots id started)
