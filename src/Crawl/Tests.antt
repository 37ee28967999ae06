-- ===== src/Crawl/Tests.antt =====
-- Runs of the crawl cycle on concrete boards and sessions.
use re_dstm.Prelude.{ℕ, suc, zero, ◌+◌, ◌≡◌, true, false, none, some, List, [], ◌∷◌, length}
use re_dstm.Prelude.{String, refl, ◌≤◌, pos, ok}
use re_dstm.Frontier.Table.{Board}
use re_dstm.Crawl.Boards.{by_board}
use re_dstm.Prelude.Sorting.{sort}
use re_dstm.Crawl.Worker.{is_zero_progress, Args, WorkerReport, timed_out, reported, Turn}
use re_dstm.Crawl.Cycle.{visit_all}
use re_dstm.Crawl.Cycle.Run.{Start, finished, run_boards, cycle_report, run_cycle}
use re_dstm.Crawl.Cycle.Complete.{IsComplete, run_cycle-IsComplete}
use re_dstm.Crawl.Cycle.Outage.{run_boards-outage}
use re_dstm.Crawl.Boards.{boards, inventory_pass_coverage}
use re_dstm.Crawl.Coverage.{inventory_pass_coverage-exact}
use re_dstm.Crawl.Session.{
  Check, valid, no_network, Because, session_status, session_status-Because,
}

abbrev shelves : List Board
shelves =
    record {
      board_id = "a";
      group_name = none;
      is_enabled = true;
      inventory_next_page = 1;
      last_inventory_at = some 20;
    }
    ∷ record {
      board_id = "b";
      group_name = none;
      is_enabled = true;
      inventory_next_page = 4;
      last_inventory_at = some 15;
    }
    ∷ record {
      board_id = "c";
      group_name = none;
      is_enabled = true;
      inventory_next_page = 1;
      last_inventory_at = none;
    }
    ∷ []

inventory_pass_coverage-exact_example :
    (length (boards shelves none true (some 10))
      ≡ (inventory_pass_coverage shelves 10 none).in_progress_boards
        + (inventory_pass_coverage shelves 10 none).pending)
    × ((inventory_pass_coverage shelves 10 none).total
        ≡ (inventory_pass_coverage shelves 10 none).completed
          + length (boards shelves none true (some 10)))
inventory_pass_coverage-exact_example = inventory_pass_coverage-exact none 10 shelves

abbrev second_time : ℕ → Check
second_time zero = no_network
second_time (suc n) = valid

session_status-Because_example : Because second_time 3 0 false (session_status second_time)
session_status-Because_example = session_status-Because second_time

abbrev always : Check → ℕ → Check
always c n = c

abbrev quiet_turn : Turn
quiet_turn = record {
  pause_exists = false;
  disk_free = 100;
  now = 5;
  revalidation = always valid;
  login = always valid;
  worker = λ seconds. timed_out;
  second_login = always valid;
  second_login_at = 6;
}

abbrev good_report : WorkerReport
good_report = record {
  status = "succeeded";
  scheduled_posts = 0;
  outcomes = none;
  failures = [];
  stop_reason = none;
  error = none;
  inventory_start_page = none;
  inventory_next_page = none;
  inventory_completed = none;
  listing_completed = none;
  listing_row_skipped = none;
}

abbrev sync_args : Args
sync_args = record { inventory = false; max_seconds = 600; disk_stop_bytes = 10 }

abbrev start : Start
start = record {
  is_locked = false;
  started_at = 0;
  pause_exists = false;
  login = always valid;
  table = shelves;
  table_after = shelves;
}

abbrev good_world : ℕ → Turn
good_world i = record quiet_turn { worker = λ seconds. reported (pos 0) good_report }

abbrev dead_world : ℕ → Turn
dead_world i = quiet_turn

abbrev three_boards : List String
three_boards = boards shelves none false none

ran :
    run_cycle sync_args start good_world none none
    ≡ ok (finished (run_boards sync_args start good_world none none three_boards))
unfolding run_cycle session_status boards by_board sort
ran = refl

run_cycle-IsComplete_example :
    IsComplete sync_args start good_world none none
      (finished (run_boards sync_args start good_world none none three_boards))
unfolding run_boards cycle_report visit_all boards sort is_zero_progress
run_cycle-IsComplete_example =
    run_cycle-IsComplete sync_args start good_world none none
      (finished (run_boards sync_args start good_world none none three_boards)) ran refl

run_boards-outage_example :
    (run_boards sync_args start dead_world none none ("a" ∷ "b" ∷ "c" ∷ "d" ∷ [])).completed_boards
    ≤ 3
run_boards-outage_example =
    run_boards-outage sync_args start dead_world none none ("a" ∷ "b" ∷ "c" ∷ "d" ∷ []) (λ i. refl)
