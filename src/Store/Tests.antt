-- ===== src/Store/Tests.antt =====
-- Runs of the store on concrete tables.
mod Bodies
use mathlib.Core.Path.{subst}
use re_dstm.Prelude.{
  ℕ, ◌*◌, inl, inr, Bool-cases, raise_if, ◌>>=◌, ◌≡◌, refl, true, none, some, List, [], ◌∷◌, find,
  ok,
}
use re_dstm.Frontier.Table.{done}
use re_dstm.Frontier.Clock.{DateTime}
use re_dstm.Store.Tables.{
  running, succeeded, Run, listing, post, stored, fetch_failed, Capture, Store, run_at, stamp,
  require_running_run, add_capture,
}
use re_dstm.Store.Captures.{record_listing, record_outcome, find_warc_capture}
use re_dstm.Prelude.{Result, err, false, pos, ◌≤◌, count, arith}
use re_dstm.Store.Bodies.{NewComment, NewPost, Fetched, Tools, StoreResult, shortage}
use re_dstm.Store.Posts.{store_post, replace_comments, end_lease}
use re_dstm.Store.Posts.Found.{IsStored, store_post-IsStored}
use re_dstm.Frontier.Table.{Post, Row, State}
use re_dstm.Frontier.Clock.{retry_backoff, optional_timestamp, timestamp}
use re_dstm.Frontier.Lease.{Lease, transition_lease}
use re_dstm.Frontier.Outcome.{retry_capped, dead_code}
use re_dstm.Store.Tables.{Comment}
use re_dstm.Store.Bodies.{of_post}
use re_dstm.Store.Posts.Kept.{store_post-NoFewer}
use re_dstm.Store.Evidence.{
  in_file, find_warc_capture-record_listing, find_warc_capture-record_outcome,
}
use re_dstm.Store.Runs.{interrupt_stale_crawl_runs}
use re_dstm.Store.Runs.Interrupting.{is_abandoned, AreSwept, interrupt_stale_crawl_runs-exact}
use re_dstm.Store.Ops.{
  StoreOp, interrupt_stale, end_run, capture_listing, store_step, store_steps, Change,
  store_step-Change,
}
use re_dstm.Store.Ops.Kept.{Agrees, IsCounted, store_steps-IsCounted, store_steps-keep_run}

abbrev clock : DateTime
clock = record { aware = true; micros = 1000 * 1000000 }

abbrev sync_run : Run
sync_run = record {
  run_id = "sync-1";
  kind = "sync";
  status = running;
  started_at = 900;
  finished_at = none;
  discovered = 0;
  fetched = 0;
  changed = 0;
  unchanged = 0;
  failures = 0;
  summary_json = "{}";
}

abbrev ended_run : Run
ended_run = record sync_run {
  run_id = "sync-0";
  status = succeeded;
  finished_at = some 800;
  fetched = 1;
  changed = 1;
}

abbrev page : Capture
page = record {
  id = 1;
  run_id = "sync-0";
  url = "https://example.org/1";
  entity = post;
  post_id = none;
  fetched_at = 700;
  http_status = some 200;
  outcome = stored;
  raw_sha256 = none;
  warc_file = none;
  warc_record_id = none;
  etag = none;
  last_modified = none;
  error_code = none;
}

abbrev store : Store
store = record {
  archive = record {
    frontier = [];
    boards =
        record {
          board_id = "ss_19";
          group_name = none;
          is_enabled = true;
          inventory_next_page = 1;
          last_inventory_at = none;
        }
        ∷ [];
    posts = [];
  };
  runs = sync_run ∷ ended_run ∷ [];
  captures = page ∷ [];
  versions = [];
  comments = [];
}

abbrev calls : List StoreOp
calls =
    capture_listing "sync-1" "https://example.org/list" clock 200 (in_file "aa" "f" "r") none
    ∷ capture_listing "sync-0" "https://example.org/list" clock 200 (in_file "aa" "f" "r") none
    ∷ end_run "sync-1" succeeded 1 "{}" clock
    ∷ interrupt_stale clock
    ∷ []

ended-Agrees : Agrees (page ∷ []) ended_run
ended-Agrees = record {
  all_fetched = refl;
  all_changed = refl;
  all_unchanged = refl;
  all_failed = refl;
}

store-IsCounted : IsCounted store
unfolding find
store-IsCounted id r e over = elim (Bool-cases (run_at id sync_run)) [
  | inl y ↦
      let found : some sync_run ≡ some r = rw y at e in
      let same : sync_run ≡ r = cc in cc (rw (← same) at over)
  | inr n ↦ elim (Bool-cases (run_at id ended_run)) [
    | inl y ↦
        let found : some ended_run ≡ some r = rw (n, y) at e in
        let same : ended_run ≡ r = cc in subst (Agrees (page ∷ [])) same ended-Agrees
    | inr m ↦ let found : none ≡ some r = rw (n, m) at e in cc
  ]
]

store_steps-IsCounted_example : IsCounted (store_steps store calls)
store_steps-IsCounted_example = store_steps-IsCounted store calls store-IsCounted

store_steps-keep_run_example :
    find (run_at "sync-0") (store_steps store calls).runs ≡ some ended_run
unfolding find
store_steps-keep_run_example = store_steps-keep_run store calls "sync-0" ended_run refl refl

abbrev listed : ℕ × Store
listed = (
  2,
  record store {
    captures =
        page
        ∷ record {
          id = 2;
          run_id = "sync-1";
          url = "https://example.org/list";
          entity = listing;
          post_id = none;
          fetched_at = 1000;
          http_status = some 200;
          outcome = stored;
          raw_sha256 = some "aa";
          warc_file = some "f";
          warc_record_id = some "r";
          etag = none;
          last_modified = none;
          error_code = none;
        }
        ∷ [];
  },
)

record_listing-stores :
    record_listing store "sync-1" "https://example.org/list" clock 200 (in_file "aa" "f" "r") none
    ≡ ok listed
unfolding record_listing stamp require_running_run add_capture find ◌>>=◌
record_listing-stores = refl

find_warc_capture-record_listing_example :
    find_warc_capture listed.1 "aa" "https://example.org/list" ≡ some (some "f", some "r")
find_warc_capture-record_listing_example =
    find_warc_capture-record_listing store "aa" "f" "r" "sync-1" "https://example.org/list" clock
      200 none 2 listed.1 record_listing-stores

abbrev collected : ℕ × Store
collected = (
  2,
  record store {
    captures =
        page
        ∷ record {
          id = 2;
          run_id = "sync-1";
          url = "https://example.org/2";
          entity = post;
          post_id = none;
          fetched_at = 1000;
          http_status = some 500;
          outcome = fetch_failed;
          raw_sha256 = some "bb";
          warc_file = some "f";
          warc_record_id = some "r";
          etag = none;
          last_modified = none;
          error_code = some "http_error";
        }
        ∷ [];
  },
)

record_outcome-stores :
    record_outcome store "sync-1" "https://example.org/2" fetch_failed clock
      (some 500)
      none
      (some "http_error")
      (in_file "bb" "f" "r")
      none
      done
      none
    ≡ ok collected
unfolding record_outcome stamp require_running_run add_capture find ◌>>=◌ raise_if
record_outcome-stores = refl

find_warc_capture-record_outcome_example :
    find_warc_capture collected.1 "bb" "https://example.org/2" ≡ some (some "f", some "r")
find_warc_capture-record_outcome_example =
    find_warc_capture-record_outcome store "bb" "f" "r" "sync-1" "https://example.org/2"
      fetch_failed clock (some 500) none (some "http_error") none done none 2 collected.1
      record_outcome-stores

clock-seconds : stamp clock ≡ ok 1000
unfolding stamp
clock-seconds = refl

interrupt_stale_crawl_runs-exact_example :
    (s' : Store) × (interrupt_stale_crawl_runs store clock ≡ ok (count is_abandoned store.runs, s'))
    × AreSwept 1000 store.runs s'.runs
    × (s' ≡ record store { runs = s'.runs })
interrupt_stale_crawl_runs-exact_example =
    interrupt_stale_crawl_runs-exact store clock 1000 clock-seconds
