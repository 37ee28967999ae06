-- ===== src/Crawl/Worker.antt =====
-- What a crawl cycle sees while it visits a board: the clocks, files and session of that moment, and
-- the report of the worker `scripts.sync` that it runs. From `run_cycle` of scripts/crawl_cycle.py.
use Prim.Native.String.{compare as compare_text}
use text.Mathlib.Text.{is_lt}
use re_dstm.Prelude.{
  ℕ, ◌-◌, ◌*◌, ◌/◌, max, String, Bool, true, false, not, ◌&&◌, ◌||◌, Option, none, some, List, [],
  ◌∷◌, ltb, leb, ◌==◌, is_text, text_in, if◌then◌else◌, ℤ, pos, negsuc,
}
use re_dstm.Prelude.Sorting.{sort}
use re_dstm.Frontier.Clock.{micros_per_second}
use re_dstm.Control.Json.{Json}
use re_dstm.Crawl.Boards.{outcome_counts}
use re_dstm.Crawl.Session.{Check}
use re_dstm.Recover.Report.{count_of}

-- the command line, as far as the loop reads it
pub record Args : Type 0 where
  pub inventory : Bool
  pub max_seconds : ℕ
  pub disk_stop_bytes : ℕ

-- the report file of a worker
pub record WorkerReport : Type 0 where
  pub status : String
  pub scheduled_posts : ℕ
  pub outcomes : Option Json
  pub failures : List String
  pub stop_reason : Option String
  pub error : Option String
  pub inventory_start_page : Option ℕ
  pub inventory_next_page : Option ℕ
  pub inventory_completed : Option Bool
  pub listing_completed : Option Bool
  pub listing_row_skipped : Option ℕ

-- how a worker ends: over its time, without a report, or with one
pub data Worker : Type 0 where
  timed_out : Worker
  no_report : (returncode : ℤ) → Worker
  reported : (returncode : ℤ) (report : WorkerReport) → Worker

-- What the loop meets at one board. Times are in microseconds of one clock; a worker is given its
-- seconds.
pub record Turn : Type 0 where
  pub pause_exists : Bool
  pub disk_free : ℕ
  pub now : ℕ
  pub revalidation : ℕ → Check
  pub login : ℕ → Check
  pub worker : Option ℕ → Worker
  pub second_login : ℕ → Check
  pub second_login_at : ℕ

-- REDSTM_SESSION_REVALIDATE_SECONDS
abbrev pub session_revalidate_seconds : ℕ
session_revalidate_seconds = 30 * 60

-- `remaining_seconds` is there and not positive
abbrev pub is_over : Args → ℕ → ℕ → Bool
is_over args started now =
    ltb 0 args.max_seconds && leb (args.max_seconds * micros_per_second) (now - started)

-- `max(1, int(remaining_seconds))`
abbrev pub worker_seconds : Args → ℕ → ℕ → Option ℕ
worker_seconds args started now =
    if ltb 0 args.max_seconds
    then some (max 1 ((args.max_seconds * micros_per_second - (now - started)) / micros_per_second))
    else none

abbrev pub is_zero : ℤ → Bool
is_zero (pos n) = n == 0
is_zero (negsuc n) = false

-- `_NETWORK_FAILURES`
abbrev pub is_network_failure : List String → Bool
is_network_failure failures =
    text_in "listing_fetch_failed" failures || text_in "network_error" failures

abbrev pub is_true : Option Bool → Bool
is_true (some true) = true
is_true _ = false

abbrev pub is_later : Option ℕ → Option ℕ → Bool
is_later (some start) (some next) = ltb start next
is_later _ _ = false

-- `inventory_progress`
abbrev pub advanced : Args → WorkerReport → Bool
advanced args r =
    args.inventory
    && (is_true r.inventory_completed || is_later r.inventory_start_page r.inventory_next_page)

-- `stored_progress`
abbrev pub has_stored : WorkerReport → Bool
has_stored r = ltb 0 (count_of "stored" (outcome_counts r.outcomes))

-- a network failure of a board that got no further
unfoldable pub is_zero_progress : Args → WorkerReport → Bool
is_zero_progress args r =
    is_network_failure r.failures && (not (advanced args r) && not (has_stored r))

abbrev pub is_paused : WorkerReport → Bool
is_paused r = is_text r.stop_reason "schedule_paused"

abbrev pub lost_session : WorkerReport → Bool
lost_session r = text_in "auth_required" r.failures || is_text r.error "SessionRefreshError"

-- `set(...)`, as the list of its members
abbrev distinct : List String → List String
distinct [] = []
distinct (x ∷ xs) = let rest = distinct xs in if text_in x rest then rest else x ∷ rest

-- `sorted(failures)`
unfoldable pub sorted_set : List String → List String
sorted_set xs = sort (λ x y. is_lt (compare_text x y)) (distinct xs)

pub record BoardResult : Type 0 where
  pub board_id : String
  pub status : String
  pub scheduled_posts : ℕ
  pub outcomes : List (String × ℕ)
  pub failures : List String
  pub inventory_start_page : Option ℕ
  pub inventory_next_page : Option ℕ
  pub inventory_completed : Option Bool
  pub listing_completed : Option Bool
  pub listing_row_skipped : Option ℕ

abbrev only_if : {A : Type 0} → Bool → Option A → Option A
only_if true o = o
only_if false o = none

-- what the cycle keeps of a worker's report
unfoldable pub board_result : Args → String → WorkerReport → BoardResult
board_result args id r = record {
  board_id = id;
  status = r.status;
  scheduled_posts = r.scheduled_posts;
  outcomes = outcome_counts r.outcomes;
  failures = sorted_set r.failures;
  inventory_start_page = only_if args.inventory r.inventory_start_page;
  inventory_next_page = only_if args.inventory r.inventory_next_page;
  inventory_completed = only_if args.inventory r.inventory_completed;
  listing_completed = only_if args.inventory r.listing_completed;
  listing_row_skipped = only_if args.inventory r.listing_row_skipped;
}

-- the result of a board whose worker left no report
abbrev pub failed_result : String → String → BoardResult
failed_result id code = record {
  board_id = id;
  status = "failed";
  scheduled_posts = 0;
  outcomes = [];
  failures = code ∷ [];
  inventory_start_page = none;
  inventory_next_page = none;
  inventory_completed = none;
  listing_completed = none;
  listing_row_skipped = none;
}
