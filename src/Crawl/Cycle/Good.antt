-- ===== src/Crawl/Cycle/Good.antt =====
-- What one visit of `run_cycle` leaves, if the status of the cycle is still a success after it.
use re_dstm.Prelude.{
  ℕ, suc, String, ◌≡◌, refl, inl, inr, Bool, true, false, ◌&&◌, Option, none, some, [], ◌∷◌, ◌++◌,
  arith, leb, str_eq, text_in, if◌then◌else◌, Bool-cases, ℤ,
}
use re_dstm.Crawl.Session.{Status, session_status}
use re_dstm.Crawl.Worker.{
  Args, WorkerReport, Worker, timed_out, no_report, reported, Turn, worker_seconds, is_zero,
  is_zero_progress, is_paused, lost_session, BoardResult, board_result,
}
use re_dstm.Crawl.Cycle.{
  CycleStatus, StopReason, Cycle, Next, stop, go_on, circuit_breaker_failures, with_result,
  lose_board, count_streaks, log_in_again, take_report, run_worker, stop_before, revalidate,
  is_old_session, start_worker, with_session, visit_unless, visit,
}
use re_dstm.Crawl.Cycle.Run.{is_succeeded, is_good}

-- the worker of a board reported success and exited with 0
pub record IsClean (args : Args) (started : ℕ) (turn : Turn) : Type 0 where
  pub code : ℤ
  pub report : WorkerReport
  pub answered : turn.worker (worker_seconds args started turn.now) ≡ reported code report
  pub exited : is_zero code ≡ true
  pub good : str_eq report.status "succeeded" ≡ true

-- what a report must be for the loop to go on with its status untouched
record Kept (c : Cycle) (exit_ok : Bool) (r : WorkerReport) (d : Cycle) : Type 0 where
  before : is_succeeded c.status ≡ true
  exited : exit_ok ≡ true
  good : str_eq r.status "succeeded" ≡ true
  results : d.results ≡ c.results

abbrev pub Judged : (Cycle → Type 0) → Next → Type 0
Judged P (stop d) = is_succeeded d.status ≡ false
Judged P (go_on d) = is_succeeded d.status ≡ true → P d

-- A stop is no success, and going on with success needs `P`.
pub record IfGood (P : Cycle → Type 0) (next : Next) : Type 0 where
  pub judged : Judged P next

stop-IfGood : {P : Cycle → Type 0} {d : Cycle} → is_succeeded d.status ≡ false → IfGood P (stop d)
stop-IfGood e = record { judged = e }

go_on-IfGood :
    {P : Cycle → Type 0} {d : Cycle} → (is_succeeded d.status ≡ true → P d) → IfGood P (go_on d)
go_on-IfGood f = record { judged = f }

pub never_good : {A : Type 0} → false ≡ true → A
never_good e = cc

module _ (args : Args) (c : Cycle) (exit_ok : Bool) (r : WorkerReport) where
  abbrev failures : ℕ
  failures = if is_zero_progress args r then suc c.network_failures else 0

  abbrev rates : ℕ
  rates = if text_in "rate_limited" r.failures then suc c.rate_limits else 0

  count_streaks-Kept : IfGood (Kept c exit_ok r) (count_streaks args c exit_ok r)
  unfolding count_streaks
  count_streaks-Kept = elim (Bool-cases (leb circuit_breaker_failures failures)) [
    | inl y ↦ rw y (stop-IfGood refl)
    | inr n ↦ elim (Bool-cases (leb circuit_breaker_failures rates)) [
      | inl y ↦ rw (n, y) (stop-IfGood refl)
      | inr m ↦ elim (Bool-cases (exit_ok && str_eq r.status "succeeded")) [
        | inr k ↦ rw (n, m, k) (go_on-IfGood never_good)
        | inl k ↦
            rw (n, m, k)
              (go_on-IfGood λ good. record {
                before = good;
                exited = ground arith;
                good = ground arith;
                results = refl;
              })
      ]
    ]
  ]

  log_in_again-Kept :
      (s : Option Status) (at_time : ℕ) → IfGood (Kept c exit_ok r) (log_in_again c s at_time)
  log_in_again-Kept (some s) at_time = stop-IfGood refl
  log_in_again-Kept none at_time = go_on-IfGood never_good

  take_report-Kept : (turn : Turn) → IfGood (Kept c exit_ok r) (take_report args c turn exit_ok r)
  unfolding take_report
  take_report-Kept turn = elim (Bool-cases (is_paused r)) [
    | inl y ↦ rw y (stop-IfGood refl)
    | inr n ↦ elim (Bool-cases (lost_session r)) [
      | inl y ↦
          rw (n, y) (log_in_again-Kept (session_status turn.second_login) turn.second_login_at)
      | inr m ↦ rw (n, m) count_streaks-Kept
    ]
  ]

-- one more good result, of this board
pub record OneMore (args : Args) (started : ℕ) (c : Cycle) (id : String) (turn : Turn) (d : Cycle)
    : Type 0 where
  pub before : is_succeeded c.status ≡ true
  pub result : BoardResult
  pub results : d.results ≡ c.results ++ result ∷ []
  pub named : result.board_id ≡ id
  pub good : is_good result ≡ true
  pub clean : IsClean args started turn

module _ (args : Args) (started : ℕ) (c : Cycle) (id : String) (turn : Turn) where
  lose_board-OneMore :
      (code : String) (status : CycleStatus) (reason : StopReason)
      → is_succeeded status ≡ false
      → IfGood (OneMore args started c id turn) (lose_board c id code status reason)
  unfolding lose_board
  lose_board-OneMore code status reason bad =
      elim (Bool-cases (leb circuit_breaker_failures (suc c.network_failures))) [
        | inl y ↦ rw y (stop-IfGood bad)
        | inr n ↦ rw n (go_on-IfGood never_good)
      ]

  reported-OneMore :
      (code : ℤ) (r : WorkerReport) (next : Next)
      → turn.worker (worker_seconds args started turn.now) ≡ reported code r
      → IfGood (Kept (with_result c (board_result args id r)) (is_zero code) r) next
      → IfGood (OneMore args started c id turn) next
  unfolding board_result
  reported-OneMore code r (stop d) e h = stop-IfGood h.judged
  reported-OneMore code r (go_on d) e h = go_on-IfGood λ good. record {
    before = (h.judged good).before;
    result = board_result args id r;
    results = (h.judged good).results;
    named = refl;
    good = (h.judged good).good;
    clean = record {
      code = code;
      report = r;
      answered = e;
      exited = (h.judged good).exited;
      good = (h.judged good).good;
    };
  }

  run_worker-OneMore :
      (w : Worker)
      → turn.worker (worker_seconds args started turn.now) ≡ w
      → IfGood (OneMore args started c id turn) (run_worker args c id turn w)
  unfolding run_worker
  run_worker-OneMore timed_out e = lose_board-OneMore "runner_timeout" _ _ refl
  run_worker-OneMore (no_report code) e = lose_board-OneMore "runner_failed" _ _ refl
  run_worker-OneMore (reported code r) e =
      reported-OneMore code r
        (take_report args (with_result c (board_result args id r)) turn (is_zero code) r) e
        (take_report-Kept args (with_result c (board_result args id r)) (is_zero code) r turn)

  start_worker-OneMore :
      IfGood (OneMore args started c id turn) (start_worker args started c id turn)
  start_worker-OneMore =
      run_worker-OneMore (turn.worker (worker_seconds args started turn.now)) refl

module _ (args : Args) (started : ℕ) (c : Cycle) (id : String) (turn : Turn) where
  -- A new time of the last validation is no result.
  same_results :
      (next : Next)
      → IfGood (OneMore args started (record c { session_validated_at = turn.now }) id turn) next
      → IfGood (OneMore args started c id turn) next
  same_results (stop d) h = stop-IfGood h.judged
  same_results (go_on d) h = go_on-IfGood λ good. record {
    before = (h.judged good).before;
    result = (h.judged good).result;
    results = (h.judged good).results;
    named = (h.judged good).named;
    good = (h.judged good).good;
    clean = (h.judged good).clean;
  }

  with_session-OneMore :
      (s : Option Status)
      → IfGood (OneMore args started c id turn) (with_session args started c id turn s)
  with_session-OneMore (some s) = stop-IfGood refl
  with_session-OneMore none =
      same_results _
        (start_worker-OneMore args started (record c { session_validated_at = turn.now }) id turn)

  visit_unless-OneMore :
      (reason : Option StopReason)
      → IfGood (OneMore args started c id turn) (visit_unless args started c id turn reason)
  visit_unless-OneMore (some reason) = stop-IfGood refl
  visit_unless-OneMore none = elim (Bool-cases (is_old_session c turn.now)) [
    | inl y ↦ rw y (with_session-OneMore (revalidate turn))
    | inr n ↦ rw n (start_worker-OneMore args started c id turn)
  ]

  pub visit-OneMore : IfGood (OneMore args started c id turn) (visit args started c id turn)
  unfolding visit
  visit-OneMore = visit_unless-OneMore (stop_before args started turn)
