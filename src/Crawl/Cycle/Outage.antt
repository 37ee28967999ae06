-- ===== src/Crawl/Cycle/Outage.antt =====
-- How many boards a cycle gives to workers while the site is out of reach.
use re_dstm.Prelude.{
  ℕ, suc, ◌+◌, ◌≤◌, ◌<◌, String, ◌≡◌, refl, inl, inr, Bool, true, false, not, ◌&&◌, Option, none,
  some, List, [], ◌∷◌, arith, leb, str_eq, text_in, if◌then◌else◌, Bool-cases, length,
  length-append,
}
use re_dstm.Crawl.Session.{Status}
use re_dstm.Crawl.Worker.{
  Args, WorkerReport, Worker, timed_out, no_report, reported, Turn, worker_seconds, is_zero,
  is_zero_progress, is_paused, lost_session, BoardResult, board_result, failed_result,
}
use re_dstm.Crawl.Cycle.{
  CycleStatus, runner_failed, StopReason, worker_timeout, missing_report, Cycle, Next, stop, go_on,
  with_result, circuit_breaker_failures, lose_board, count_streaks, take_report, run_worker,
  stop_before, revalidate, is_old_session, start_worker, with_session, visit_unless, visit,
  and_then, visit_all,
}
use re_dstm.Crawl.Cycle.Run.{Start, first_cycle, run_boards, cycle_report}

-- A worker that brings its board no further: it hangs, leaves no report, or reports a network failure
-- with nothing stored, no page gained and the session still good.
abbrev pub is_lost : Args → Worker → Bool
is_lost args timed_out = true
is_lost args (no_report code) = true
is_lost args (reported code r) =
    not (is_paused r) && (not (lost_session r) && is_zero_progress args r)

abbrev size : Cycle → ℕ
size c = length c.results

-- a stop with at most one more result, or one more result and one more failure, not yet three
abbrev OneLost : Cycle → Next → Type 0
OneLost c (stop d) = size d ≤ suc (size c)
OneLost c (go_on d) =
    (size d ≡ suc (size c))
    × (d.network_failures ≡ suc c.network_failures)
    × (d.network_failures < circuit_breaker_failures)

one_more : (c : Cycle) (r : BoardResult) → size (with_result c r) ≡ suc (size c)
one_more c r = omega (arith, length-append c.results (r ∷ []))

below : (n : ℕ) → leb circuit_breaker_failures n ≡ false → n < circuit_breaker_failures
below n h = ground arith

module _ (args : Args) (c : Cycle) (id : String) where
  lose_board-OneLost :
      (code : String) (status : CycleStatus) (reason : StopReason)
      → OneLost c (lose_board c id code status reason)
  unfolding lose_board
  lose_board-OneLost code status reason =
      elim (Bool-cases (leb circuit_breaker_failures (suc c.network_failures))) [
        | inl y ↦ rw y (omega (arith, one_more c (failed_result id code)))
        | inr n ↦ rw n (one_more c (failed_result id code), refl, below (suc c.network_failures) n)
      ]

  module _ (r : WorkerReport) (exit_ok : Bool)
      (zero_progress : is_zero_progress args r ≡ true) where
    abbrev rates : ℕ
    rates = if text_in "rate_limited" r.failures then suc c.rate_limits else 0

    more : size (with_result c (board_result args id r)) ≡ suc (size c)
    more = one_more c (board_result args id r)

    count_streaks-OneLost :
        OneLost c (count_streaks args (with_result c (board_result args id r)) exit_ok r)
    unfolding count_streaks
    count_streaks-OneLost =
        elim (Bool-cases (leb circuit_breaker_failures (suc c.network_failures))) [
          | inl y ↦ rw (zero_progress, y) (omega (arith, more))
          | inr n ↦ elim (Bool-cases (leb circuit_breaker_failures rates)) [
            | inl y ↦ rw (zero_progress, n, y) (omega (arith, more))
            | inr m ↦ elim (Bool-cases (exit_ok && str_eq r.status "succeeded")) [
              | inl k ↦ rw (zero_progress, n, m, k) (more, refl, below (suc c.network_failures) n)
              | inr k ↦ rw (zero_progress, n, m, k) (more, refl, below (suc c.network_failures) n)
            ]
          ]
        ]

module _ (args : Args) (started : ℕ) (c : Cycle) (id : String) (turn : Turn) where
  run_worker-OneLost :
      (w : Worker) → is_lost args w ≡ true → OneLost c (run_worker args c id turn w)
  unfolding run_worker take_report
  run_worker-OneLost timed_out h = lose_board-OneLost args c id "runner_timeout" _ worker_timeout
  run_worker-OneLost (no_report code) h =
      lose_board-OneLost args c id "runner_failed" runner_failed missing_report
  run_worker-OneLost (reported code r) h =
      let running : is_paused r ≡ false = ground arith in
      let alive : lost_session r ≡ false = ground arith in
      rw (running, alive) (count_streaks-OneLost args c id r (is_zero code) (ground arith))

module _ (args : Args) (started : ℕ) (c : Cycle) (id : String) (turn : Turn)
    (lost : is_lost args (turn.worker (worker_seconds args started turn.now)) ≡ true) where
  abbrev validated : Cycle
  validated = record c { session_validated_at = turn.now }

  start_worker-OneLost : OneLost c (start_worker args started c id turn)
  start_worker-OneLost = run_worker-OneLost args started c id turn _ lost

  same_size : (next : Next) → OneLost validated next → OneLost c next
  same_size (stop d) h = h
  same_size (go_on d) h = h

  with_session-OneLost : (s : Option Status) → OneLost c (with_session args started c id turn s)
  with_session-OneLost (some s) = omega arith
  with_session-OneLost none = same_size _ (run_worker-OneLost args started validated id turn _ lost)

  visit_unless-OneLost :
      (reason : Option StopReason) → OneLost c (visit_unless args started c id turn reason)
  visit_unless-OneLost (some reason) = omega arith
  visit_unless-OneLost none = elim (Bool-cases (is_old_session c turn.now)) [
    | inl y ↦ rw y (with_session-OneLost (revalidate turn))
    | inr n ↦ rw n start_worker-OneLost
  ]

  visit-OneLost : OneLost c (visit args started c id turn)
  unfolding visit
  visit-OneLost = visit_unless-OneLost (stop_before args started turn)

module _ (args : Args) (started : ℕ) (world : ℕ → Turn)
    (outage : (i : ℕ)
      → is_lost args ((world i).worker (worker_seconds args started (world i).now)) ≡ true) where
  abbrev Few : Cycle → Cycle → Type 0
  Few c d = size d + c.network_failures ≤ size c + circuit_breaker_failures

  and_then-Few :
      (c : Cycle) (next : Next) (rest : Cycle → Cycle)
      → c.network_failures < circuit_breaker_failures
      → OneLost c next
      → ((d : Cycle) → d.network_failures < circuit_breaker_failures → Few d (rest d))
      → Few c (and_then next rest)
  and_then-Few c (stop d) rest lt h k = omega (arith, h, lt)
  and_then-Few c (go_on d) rest lt h k = omega (arith, h.0, h.1, k d h.2)

  visit_all-Few :
      (ids : List String) (i : ℕ) (c : Cycle)
      → c.network_failures < circuit_breaker_failures
      → Few c (visit_all args started world i ids c)
  unfolding visit_all
  visit_all-Few [] i c lt = omega (arith, lt)
  visit_all-Few (id ∷ ids) i c lt =
      and_then-Few c (visit args started c id (world i))
        (λ d. visit_all args started world (suc i) ids d) lt
        (visit-OneLost args started c id (world i) (outage i)) (visit_all-Few ids (suc i))

-- While each worker is lost (it hangs, leaves no report, or reports a network failure with nothing
-- gained and the session still good), a cycle visits at most three boards, however many it has.
pub run_boards-outage :
    (args : Args) (start : Start) (world : ℕ → Turn) (since : Option ℕ) (id : Option String)
    (ids : List String)
    → ((i : ℕ)
        → is_lost args ((world i).worker (worker_seconds args start.started_at (world i).now))
          ≡ true)
    → (run_boards args start world since id ids).completed_boards ≤ circuit_breaker_failures
unfolding run_boards cycle_report
run_boards-outage args start world since id ids outage = omega (
  arith,
  visit_all-Few args start.started_at world outage ids 0 (first_cycle start.started_at)
      (omega arith),
)
