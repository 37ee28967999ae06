-- ===== src/TextArchive/Tests.antt =====
-- Runs of the text archive on concrete batches.
use re_dstm.Prelude.{
  find, update_where, ℕ, String, ◌≡◌, refl, true, false, some, List, [], ◌∷◌, arith, str_eq,
  if◌then◌else◌,
}
use re_dstm.TextArchive.Attempts.{Slot, previous, begin, record_failure, backoff_active, not_ready}
use re_dstm.TextArchive.Attempts.Laws.{previous-undo}
use re_dstm.TextArchive.Drain.{
  Batch, refused, imported, broke, Import, State, Round, drain_batches, drain,
}
use re_dstm.TextArchive.Drain.Settled.{leaves_mark}
use re_dstm.TextArchive.Drain.Progress.{Because, drain-Because}

abbrev failed_once : List Slot
failed_once =
    record {
      batch_id = "a";
      content = some (record { attempts = 1; next_at = 900; reason = "import_failed:OSError" });
    }
    ∷ []

abbrev batch : String → Batch
batch name = record {
  name = name;
  is_batch = true;
  is_ready = true;
  is_rejected = false;
  has_receipt = false;
  has_status = false;
}

abbrev inbox : State
inbox = record { inbox = batch "a" ∷ batch "b" ∷ batch "c" ∷ []; slots = failed_once }

-- the batch "a" fails again, the others are imported
abbrev results : String → Import
results id = if str_eq id "a" then broke "OSError" true else imported

abbrev world : ℕ → Round
world i = record { now = 1000; is_late = false; result = results }

drains :
    (drain world drain_batches 0
      (record { state = inbox; seen = []; imported = 0; is_failed = false })).1.seen
    ≡ "c" ∷ "b" ∷ "a" ∷ []
unfolding drain backoff_active find record_failure begin update_where
drains = refl

previous-undo_example : previous (not_ready (begin failed_once "a" 1000) "a" 1001) "a" ≡ 1
unfolding previous find
previous-undo_example = previous-undo failed_once "a" 1000 1001

drain-Because_example : Because world (
    drain world drain_batches 0
      (record { state = inbox; seen = []; imported = 0; is_failed = false }))
drain-Because_example = drain-Because world 1200 (λ i. omega arith) (λ i. omega arith) marks inbox
  where
    marks : (i : ℕ) (id : String) → leaves_mark (results id) ≡ true
    marks i id = ground arith

-- a batch that is rejected and leaves no mark comes up again, and the run ends before the others
abbrev unmarked : ℕ → Round
unmarked i = record { now = 1000; is_late = false; result = λ id. refused false }

drain_stuck :
    (drain unmarked drain_batches 0 (record {
      state = record { inbox = batch "a" ∷ batch "b" ∷ []; slots = [] };
      seen = [];
      imported = 0;
      is_failed = false;
    })).1.seen
    ≡ "a" ∷ []
unfolding drain backoff_active find begin update_where
drain_stuck = refl
