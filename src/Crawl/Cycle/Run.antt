-- ===== src/Crawl/Cycle/Run.antt =====
-- `run_cycle` of scripts/crawl_cycle.py as a whole: the checks before the loop, the loop, and the report.
-- The writing of files, the identifier of the cycle and the ping of the health check are left out; the
-- report says whether the ping is sent.
use re_dstm.Prelude.{
  ℕ, ◌-◌, String, Bool, true, false, not, ◌&&◌, Option, none, some, List, [], ◌∷◌, Result, ok, err,
  value_error, runtime_error, str_eq, if◌then◌else◌, length, count, sum_by,
}
use re_dstm.Frontier.Table.{Board}
use re_dstm.Crawl.Boards.{boards, Coverage, inventory_pass_coverage}
use re_dstm.Crawl.Session.{Check, Status, session_status}
use re_dstm.Crawl.Worker.{Args, Turn, BoardResult, is_true}
use re_dstm.Crawl.Cycle.{
  CycleStatus, succeeded, StopReason, schedule_paused, disk_low, Cycle, visit_all,
}
use re_dstm.Recover.Report.{count_of, item_failures}

-- what an inventory adds to the report
pub record InventoryReport : Type 0 where
  pub boards_completed : ℕ
  pub listing_row_skipped : ℕ
  pub coverage : Option Coverage

pub record CycleReport : Type 0 where
  pub is_ok : Bool
  pub status : CycleStatus
  pub board_count : ℕ
  pub completed_boards : ℕ
  pub changed_posts : ℕ
  pub failed_posts : ℕ
  pub boards_ok : ℕ
  pub boards_failed : ℕ
  pub stop_reason : Option StopReason
  pub results : List BoardResult
  pub inventory : Option InventoryReport
  pub is_disk_low : Bool
  pub pings : Bool

-- nothing left of an inventory pass; held back before the first board; or a report
pub data Answer : Type 0 where
  nothing_left paused_before : Answer
  no_session : Status → Answer
  finished : CycleReport → Answer

abbrev pub is_succeeded : CycleStatus → Bool
is_succeeded succeeded = true
is_succeeded _ = false

-- `"ok"` of each answer
abbrev pub is_ok : Answer → Bool
is_ok nothing_left = true
is_ok (finished r) = r.is_ok
is_ok _ = false

abbrev is_disk_stop : Option StopReason → Bool
is_disk_stop (some disk_low) = true
is_disk_stop _ = false

abbrev is_pause : Option StopReason → Bool
is_pause (some schedule_paused) = true
is_pause _ = false

-- `item["status"] == "succeeded"`
abbrev pub is_good : BoardResult → Bool
is_good r = str_eq r.status "succeeded"

abbrev skipped : Option ℕ → ℕ
skipped none = 0
skipped (some n) = n

abbrev coverage_since : List Board → Option ℕ → Option String → Option Coverage
coverage_since table none id = none
coverage_since table (some since) id = some (inventory_pass_coverage table since id)

unfoldable pub inventory_report :
    Bool → List BoardResult → List Board → Option ℕ → Option String → Option InventoryReport
inventory_report false results table since id = none
inventory_report true results table since id = some (record {
  boards_completed = count (λ (r : BoardResult). is_true r.inventory_completed) results;
  listing_row_skipped = sum_by (λ (r : BoardResult). skipped r.listing_row_skipped) results;
  coverage = coverage_since table since id;
})

-- `table` is the boards as the workers leave them.
unfoldable pub cycle_report : Args → ℕ → Cycle → List Board → Option ℕ → Option String → CycleReport
cycle_report args board_count c table since id = record {
  is_ok = is_succeeded c.status;
  status = c.status;
  board_count = board_count;
  completed_boards = length c.results;
  changed_posts = sum_by (λ (r : BoardResult). count_of "stored" r.outcomes) c.results;
  failed_posts = sum_by (λ (r : BoardResult). item_failures r.outcomes) c.results;
  boards_ok = count is_good c.results;
  boards_failed = length c.results - count is_good c.results;
  stop_reason = c.stop_reason;
  results = c.results;
  inventory = inventory_report args.inventory c.results table since id;
  is_disk_low = is_disk_stop c.stop_reason;
  pings = not (is_pause c.stop_reason);
}

-- what a cycle meets before its first board, and the boards that its workers leave
pub record Start : Type 0 where
  pub is_locked : Bool
  pub started_at : ℕ
  pub pause_exists : Bool
  pub login : ℕ → Check
  pub table : List Board
  pub table_after : List Board

abbrev pub is_empty : {A : Type 0} → List A → Bool
is_empty [] = true
is_empty (x ∷ xs) = false

abbrev pub first_cycle : ℕ → Cycle
first_cycle started_at = record {
  results = [];
  session_validated_at = started_at;
  network_failures = 0;
  rate_limits = 0;
  status = succeeded;
  stop_reason = none;
}

-- no board left of those that the pass began with
abbrev pub pass_is_over : Args → List Board → Option ℕ → Option String → Bool
pass_is_over args table none id = false
pass_is_over args table (some since) id =
    args.inventory && not (is_empty (boards table id true none))

unfoldable pub run_boards :
    Args → Start → (ℕ → Turn) → Option ℕ → Option String → List String → CycleReport
run_boards args start world since id ids =
    cycle_report args (length ids)
      (visit_all args start.started_at world 0 ids (first_cycle start.started_at)) start.table_after
      since id

abbrev pub run_with :
    Args → Start → (ℕ → Turn) → Option ℕ → Option String → List String → Option Status → Answer
run_with args start world since id ids (some s) = no_session s
run_with args start world since id ids none = finished (run_boards args start world since id ids)

unfoldable pub run_cycle : Args → Start → (ℕ → Turn) → Option ℕ → Option String → Result Answer
unfolding run_boards
run_cycle args start world since id =
    let ids = boards start.table id args.inventory since in
    if is_empty ids
    then if pass_is_over args start.table since id
      then ok nothing_left
      else err (value_error "canonical archive has no enabled boards")
    else if start.is_locked
    then err (runtime_error "another crawl cycle or sync writer is running")
    else if start.pause_exists
    then ok paused_before
    else ok (run_with args start world since id ids (session_status start.login))
