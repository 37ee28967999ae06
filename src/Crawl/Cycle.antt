-- ===== src/Crawl/Cycle.antt =====
-- `run_cycle` of scripts/crawl_cycle.py: the boards one after the other, each by a worker of its own,
-- until one of the stops, and the report of the cycle.
pub mod Run
pub mod Good
pub mod Complete
pub mod Outage
use re_dstm.Prelude.{
  ℕ, suc, ◌+◌, ◌-◌, ◌*◌, String, Bool, true, false, not, ◌&&◌, ◌||◌, Option, none, some, is_some,
  List, [], ◌∷◌, ◌++◌, Result, ok, err, value_error, runtime_error, ltb, leb, ◌==◌, str_eq, text_in,
  if◌then◌else◌, length, count, sum_by,
}
use re_dstm.Frontier.Table.{Board}
use re_dstm.Frontier.Clock.{micros_per_second}
use re_dstm.Crawl.Boards.{boards, Coverage, inventory_pass_coverage}
use re_dstm.Crawl.Session.{Check, Status, site_unreachable, auth_failed, session_status}
use re_dstm.Crawl.Worker.{
  Args, WorkerReport, Worker, timed_out, no_report, reported, Turn, session_revalidate_seconds,
  is_over, worker_seconds, is_zero, is_true, is_zero_progress, is_paused, lost_session, BoardResult,
  board_result, failed_result,
}
use re_dstm.Recover.Report.{count_of}

pub data CycleStatus : Type 0 where
  succeeded partial runner_failed rate_limited : CycleStatus
  of_session : Status → CycleStatus

pub data StopReason : Type 0 where
  schedule_paused disk_low time_budget session_revalidation worker_timeout missing_report :
      StopReason

-- the variables of the loop
pub record Cycle : Type 0 where
  pub results : List BoardResult
  pub session_validated_at : ℕ
  pub network_failures : ℕ
  pub rate_limits : ℕ
  pub status : CycleStatus
  pub stop_reason : Option StopReason

-- whether the loop goes on to the next board
pub data Next : Type 0 where
  stop go_on : Cycle → Next

-- REDSTM_CIRCUIT_BREAKER_FAILURES
abbrev pub circuit_breaker_failures : ℕ
circuit_breaker_failures = 3

-- `status` and `stop_reason`, then `break`
abbrev pub stop_with : Cycle → CycleStatus → Option StopReason → Next
stop_with c status reason = stop (record c { status = status; stop_reason = reason })

abbrev pub with_result : Cycle → BoardResult → Cycle
with_result c r = record c { results = c.results ++ r ∷ [] }

-- a board whose worker hung or left no report
unfoldable pub lose_board : Cycle → String → String → CycleStatus → StopReason → Next
lose_board c id code status reason =
    let lost = record (with_result c (failed_result id code)) {
      network_failures = suc c.network_failures;
      status = partial;
    } in
    if leb circuit_breaker_failures lost.network_failures
    then stop_with lost status (some reason)
    else go_on lost

-- the streaks of failures, and the status of a board that reported
unfoldable pub count_streaks : Args → Cycle → Bool → WorkerReport → Next
count_streaks args c exit_ok r =
    let c1 = record c {
      network_failures = if is_zero_progress args r then suc c.network_failures else 0;
    } in
    let c2 = record c1 {
      rate_limits = if text_in "rate_limited" r.failures then suc c.rate_limits else 0;
    } in
    if leb circuit_breaker_failures c1.network_failures
    then stop_with c1 (of_session site_unreachable) c.stop_reason
    else if leb circuit_breaker_failures c2.rate_limits
    then stop_with c2 rate_limited c.stop_reason
    else if exit_ok && str_eq r.status "succeeded"
    then go_on c2
    else go_on (record c2 { status = partial })

-- the one more login in the midst of a cycle
abbrev pub log_in_again : Cycle → Option Status → ℕ → Next
log_in_again c (some s) at = stop_with c (of_session s) (some session_revalidation)
log_in_again c none at =
    go_on (record c { session_validated_at = at; network_failures = 0; status = partial })

unfoldable pub take_report : Args → Cycle → Turn → Bool → WorkerReport → Next
unfolding count_streaks
take_report args c turn exit_ok r =
    if is_paused r
    then stop_with c partial (some schedule_paused)
    else if lost_session r
    then log_in_again c (session_status turn.second_login) turn.second_login_at
    else count_streaks args c exit_ok r

unfoldable pub run_worker : Args → Cycle → String → Turn → Worker → Next
unfolding lose_board take_report
run_worker args c id turn timed_out =
    lose_board c id "runner_timeout" (of_session site_unreachable) worker_timeout
run_worker args c id turn (no_report code) =
    lose_board c id "runner_failed" runner_failed missing_report
run_worker args c id turn (reported code r) =
    take_report args (with_result c (board_result args id r)) turn (is_zero code) r

-- the stops before a board is visited
unfoldable pub stop_before : Args → ℕ → Turn → Option StopReason
stop_before args started turn =
    if turn.pause_exists
    then some schedule_paused
    else if ltb 0 args.disk_stop_bytes && ltb turn.disk_free args.disk_stop_bytes
    then some disk_low
    else if is_over args started turn.now
    then some time_budget
    else none

abbrev login_if_refused : Option Status → Option Status → Option Status
login_if_refused (some auth_failed) login = login
login_if_refused s login = s

-- `_revalidate`, and the login if it is refused
unfoldable pub revalidate : Turn → Option Status
revalidate turn = login_if_refused (session_status turn.revalidation) (session_status turn.login)

abbrev pub is_old_session : Cycle → ℕ → Bool
is_old_session c now =
    leb (session_revalidate_seconds * micros_per_second) (now - c.session_validated_at)

-- the worker, with the seconds that are left
abbrev pub start_worker : Args → ℕ → Cycle → String → Turn → Next
start_worker args started c id turn =
    run_worker args c id turn (turn.worker (worker_seconds args started turn.now))

abbrev pub with_session : Args → ℕ → Cycle → String → Turn → Option Status → Next
with_session args started c id turn (some s) =
    stop_with c (of_session s) (some session_revalidation)
with_session args started c id turn none =
    start_worker args started (record c { session_validated_at = turn.now }) id turn

abbrev pub visit_unless : Args → ℕ → Cycle → String → Turn → Option StopReason → Next
visit_unless args started c id turn (some reason) = stop_with c partial (some reason)
visit_unless args started c id turn none =
    if is_old_session c turn.now
    then with_session args started c id turn (revalidate turn)
    else start_worker args started c id turn

-- the body of the loop
unfoldable pub visit : Args → ℕ → Cycle → String → Turn → Next
unfolding stop_before run_worker revalidate
visit args started c id turn = visit_unless args started c id turn (stop_before args started turn)

abbrev pub and_then : Next → (Cycle → Cycle) → Cycle
and_then (stop c) rest = c
and_then (go_on c) rest = rest c

-- The loop. `world i` is what it meets at the i-th board.
unfoldable pub visit_all : Args → ℕ → (ℕ → Turn) → ℕ → List String → Cycle → Cycle
unfolding visit
visit_all args started world i [] c = c
visit_all args started world i (id ∷ ids) c =
    and_then (visit args started c id (world i)) (λ d. visit_all args started world (suc i) ids d)
