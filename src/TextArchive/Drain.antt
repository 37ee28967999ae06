-- ===== src/TextArchive/Drain.antt =====
-- `_next_ready_batch`, `_import_one` and the loop of `main` in scripts/text_archive/importer.py. What
-- `import_batch` does with a batch is given by the world that the loop meets; here stands what the loop
-- makes of it.
pub mod Settled
pub mod Progress
use Prim.Native.Nat.{suc}
use re_dstm.Prelude.{
  ℕ, zero, ◌+◌, String, Bool, true, false, not, ◌&&◌, ◌||◌, Option, none, some, is_some, List, [],
  ◌∷◌, ltb, leb, ◌==◌, str_eq, text_in, if◌then◌else◌, find, map_row, update_where,
}
use re_dstm.TextArchive.Attempts.{Slot, backoff_active, begin, record_failure, not_ready, clear}

-- A directory of the drop, and the files of its name: `ready.json` and `rejected.json` in it, the receipt
-- and the status beside it. `is_batch` says that the name is a batch's and no link.
pub record Batch : Type 0 where
  pub name : String
  pub is_batch : Bool
  pub is_ready : Bool
  pub is_rejected : Bool
  pub has_receipt : Bool
  pub has_status : Bool

abbrev pub named : String → Batch → Bool
named id b = str_eq b.name id

abbrev pub is_open : Batch → Bool
is_open b =
    b.is_batch && (b.is_ready && (not b.is_rejected && (not b.has_receipt && not b.has_status)))

-- The first open batch that is not backing off. The inbox is in the order of the names.
unfoldable pub next_ready_batch : List Batch → List Slot → ℕ → Option String
next_ready_batch [] slots now = none
next_ready_batch (b ∷ inbox) slots now =
    let rest = next_ready_batch inbox slots now in
    if is_open b && not (backoff_active slots b.name now) then some b.name else rest

-- How an import ends: the window of the operation is shut, before anything is done; the record of the
-- attempt cannot be written; the batch is rejected, with a marker of it or without; an error, after
-- which the record can be written or not; the batch is not ready; it is imported, which writes its
-- receipt.
pub data Import : Type 0 where
  window_shut unstarted unfinished imported : Import
  refused : (marked : Bool) → Import
  broke : (error : String) (writable : Bool) → Import

pub data Outcome : Type 0 where
  rejected failed done : Outcome

pub record State : Type 0 where
  pub inbox : List Batch
  pub slots : List Slot

-- the rejection is marked in the drop or beside it
abbrev pub mark : Bool → Batch → Batch
mark marked b = record b { has_status = b.has_status || marked }

abbrev pub with_receipt : Batch → Batch
with_receipt b = record b { has_receipt = true }

abbrev pub update : String → (Batch → Batch) → State → State
update id f s = record s { inbox = update_where (named id) f s.inbox }

-- what `_import_one` leaves: nothing if the window is shut, else no outcome or one
pub data Ended : Type 0 where
  deferred : Ended
  no_batch : State → Ended
  outcome : Outcome → State → Ended

unfoldable pub import_one : State → String → ℕ → Import → Ended
import_one s id now window_shut = deferred
import_one s id now unstarted = outcome failed s
import_one s id now (refused marked) =
    outcome rejected
      (update id (mark marked) (record s { slots = clear (begin s.slots id now) id }))
import_one s id now (broke error writable) =
    outcome failed
      (record s { slots = record_failure (begin s.slots id now) id error writable now })
import_one s id now unfinished =
    no_batch (record s { slots = not_ready (begin s.slots id now) id now })
import_one s id now imported =
    outcome done (update id with_receipt (record s { slots = clear (begin s.slots id now) id }))

-- what the loop meets in one round
pub record Round : Type 0 where
  pub now : ℕ
  pub is_late : Bool
  pub result : String → Import

-- why the loop ends
pub data Exit : Type 0 where
  nothing_ready seen_again full too_late window_closed batch_not_ready out_of_rounds : Exit

pub record Drain : Type 0 where
  pub state : State
  pub seen : List String
  pub imported : ℕ
  pub is_failed : Bool

-- _DRAIN_BATCHES
abbrev pub drain_batches : ℕ
drain_batches = 20

abbrev is_failure : Outcome → Bool
is_failure failed = true
is_failure _ = false

pub data Next : Type 0 where
  exit : Exit → Drain → Next
  again : Drain → Next

-- the end of a round
abbrev pub after_import : Drain → String → Bool → Ended → Next
after_import d id late deferred = exit window_closed d
after_import d id late (no_batch s) = exit batch_not_ready (record d { state = s })
after_import d id late (outcome o s) =
    let e = record d {
      state = s;
      is_failed = d.is_failed || is_failure o;
      imported = d.imported + 1;
    } in
    if leb drain_batches e.imported then exit full e else if late then exit too_late e else again e

abbrev pub with_batch : Drain → Round → Option String → Next
with_batch d r none = exit nothing_ready d
with_batch d r (some id) =
    if text_in id d.seen
    then exit seen_again d
    else after_import (record d { seen = id ∷ d.seen }) id r.is_late
        (import_one d.state id r.now (r.result id))

-- one round of the loop, without `--batch-id`
unfoldable pub round : Drain → Round → Next
unfolding next_ready_batch import_one
round d r = with_batch d r (next_ready_batch d.state.inbox d.state.slots r.now)

abbrev pub and_then : Next → (Drain → Exit × Drain) → Exit × Drain
and_then (exit e d) rest = (e, d)
and_then (again d) rest = rest d

-- The loop, for so many rounds at most; `world i` is what the i-th meets.
unfoldable pub drain : (ℕ → Round) → ℕ → ℕ → Drain → Exit × Drain
unfolding round
drain world zero i d = (out_of_rounds, d)
drain world (suc fuel) i d = and_then (round d (world i)) (λ e. drain world fuel (suc i) e)

-- `parser.exit`'s code
abbrev pub exit_code : Exit × Drain → ℕ
exit_code (window_closed, d) = 75
exit_code (batch_not_ready, d) = 0
exit_code (e, d) = if d.is_failed then 1 else 0
