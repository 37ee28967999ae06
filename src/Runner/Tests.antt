-- ===== src/Runner/Tests.antt =====
-- Runs of the runner's operations at concrete inputs.
use Prim.Native.Nat.{zero, suc}
use re_dstm.Prelude.{
  ℕ, ◌+◌, ◌≤◌, ◌≡◌, refl, arith, String, Option, none, some, is_some, List, [], ◌∷◌, ◌++◌,
  if◌then◌else◌, ltb, ok,
}
use re_dstm.Runner.Outage.{OutagePolicy, delay, entry, since_or, wait, reset, sleep_from, backoff}
use re_dstm.Runner.Combined.{
  Report, combined_collection_report, combine, gather, put_all, put, outcome_of, or_else, last_of,
  selected_run, run_or, if_any,
}
use re_dstm.Runner.Combined.Folded.{combined_collection_report-again}
use re_dstm.Runner.Outage.Deadline.{Waiting, unwaited, waited, never_paused, Waiting-bounded}

-- how often a command waits that tries again at the end of each sleep
abbrev waits : (fuel now : ℕ) → OutagePolicy → ℕ
waits zero now p = 0
waits (suc fuel) now p =
    let rest = waits fuel (now + delay p.retries) (wait p now).0 in
    if is_some (wait p now).1 then suc rest else 0

waits_longest : waits 100 1 reset ≡ 76
unfolding delay entry since_or wait
waits_longest = refl

-- The pause file cuts a sleep short at the next multiple of 30 seconds.
backoff_paused : backoff (ltb 59) 100 ≡ 60
unfolding backoff sleep_from
backoff_paused = refl

abbrev first : OutagePolicy × Option ℕ
first = wait reset 5

abbrev second : OutagePolicy × Option ℕ
second = wait first.0 100

two_waits : Waiting 2 (100 + backoff never_paused 180) second.0
unfolding wait delay entry since_or backoff sleep_from
two_waits =
    waited {now = 100} {seconds = 180}
      (waited {now = 5} {seconds = 90} (unwaited {t = 5} (omega arith)) (omega arith) refl)
      (omega arith) refl

Waiting-bounded_example : 2 ≤ 76
Waiting-bounded_example = Waiting-bounded 2 (100 + backoff never_paused 180) second.0 two_waits

abbrev report : String → ℕ → String → Option ℕ → Report
report run n status changed_posts = record {
  outcomes = ("stored", n) ∷ ("parse_failed", 1) ∷ [];
  boards = record { board_id = "a"; status = status } ∷ [];
  failures = "parse_error" ∷ [];
  run_id = some run;
  selected_posts = n;
  scheduled_posts = n;
  changed_posts = changed_posts;
  failed_posts = none;
  boards_ok = 0;
  boards_failed = 0;
  status = status;
}

abbrev batches : List Report
batches = report "first" 3 "failed" none ∷ report "second" 0 "succeeded" (some 5) ∷ []

abbrev folded : Report
folded = record {
  outcomes = ("stored", 3) ∷ ("parse_failed", 2) ∷ [];
  boards = record { board_id = "a"; status = "succeeded" } ∷ [];
  failures = "parse_error" ∷ [];
  run_id = some "first";
  selected_posts = 3;
  scheduled_posts = 3;
  changed_posts = some 8;
  failed_posts = some 2;
  boards_ok = 1;
  boards_failed = 0;
  status = "succeeded";
}

combined_batches : combined_collection_report batches ≡ ok folded
unfolding combined_collection_report combine gather put_all put outcome_of or_else last_of
    selected_run run_or if_any
combined_batches = refl

combined_collection_report-again_example :
    combined_collection_report (folded ∷ report "third" 2 "succeeded" none ∷ [])
    ≡ combined_collection_report (batches ++ report "third" 2 "succeeded" none ∷ [])
combined_collection_report-again_example =
    combined_collection_report-again batches folded (report "third" 2 "succeeded" none ∷ [])
      ((λ h. refl), ((λ h. refl), tt)) combined_batches
