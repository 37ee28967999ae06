-- ===== src/Lib.antt =====
-- ReDSTM archives a bulletin board: a crawler takes posts from a queue in SQLite, the frontier, and
-- a runner reports its work to a control plane. This library models the queue, the store of runs and
-- captures, the cycles that run the crawler, the runner's side of the control plane and the import of
-- text batches, and proves what they promise.
--
-- The parts, and how they interact. The spider seeds the frontier from listings and claims posts
-- under leases; the store ends each lease when a fetch ends; recovery and the requeue operations
-- put posts back into the queue. A crawl cycle gives each board to a worker of its own. The runner
-- keeps commands in a ledger, queues reports in an outbox and delivers them to a Worker.
--
-- Prelude: tests on native numbers and texts, results that may be errors, lists and tables of rows,
--   sorting, and rules for what a computation returns (Ensures).
-- Frontier: crawler/frontier.py, and the lease rules of crawler/store.py.
--   Table: `crawl_frontier` with its CHECK constraints, and the columns in use of `boards` and
--     `posts` (crawler/archive.py). Clock: `_timestamp`, `retry_backoff`.
--   Lease: `FrontierLease`, `transition_lease`, `complete_lease`. Claim: `claim_identity`, `claim`.
--   Seed: `seed`, `listing_is_unchanged`. Requeue: `requeue_full_content`, `full_content_remaining`,
--     `requeue_stale_details`, `revive_missing_dead`, `requeue_dead`. Recovery:
--     `recovery_candidates`. Order: their ORDER BY clauses.
--   Outcome: `_dead_code`, `_retry_capped` and the lease part of `record_outcome` (crawler/store.py).
--   Ops: all writes to the frontier as one type, and their sequences. Effects: what an
--     operation does to a row, column by column. The other modules are proofs.
-- Store: crawler/store.py.
--   Tables: `crawl_runs` and `captures`, `_require_running_run`. Runs: `start_run`,
--     `interrupt_stale_crawl_runs`, `finish_run`. Captures: `record_listing`, `record_outcome`,
--     `record_unmodified_post`, `find_warc_capture`, `checkpoint_inventory_page`. Discovered:
--     `store_discovered_post`. Bodies: the parts of `store_post`, for the `NormalizedPost` of
--     crawler/pipelines.py. Posts: `store_post`, `_replace_comments`, `latest_conditional_validator`.
--     Ops: all writes as one type. The other modules are proofs.
-- Control: scripts/control_store.py and scripts/control_client.py.
--   Json: payloads and `_safe_payload`. Ledger: `command_ledger`. Outbox: `outbox` and
--     `control_rejections`. Client: `_request`, `send_latest`, `send_or_enqueue` and `flush`.
--   Claiming: `_claim` and `claim_marker`.
-- Crawl: scripts/crawl_cycle.py.
--   Boards: `_boards`, `_inventory_pass_coverage`, `_outcome_counts`. Session: `_session_status`.
--   Worker: what the loop of `run_cycle` meets at a board, and a worker's report. Cycle: the loop.
--   Cycle/Run: `run_cycle` and its report. Good, Complete and Outage are proofs.
-- Recover: scripts/recover_queue.py, and `_run_status` of scripts/sync.py.
--   Batch: `_recovery_batch` and the choice of posts in `run_recovery`. Report: the status. Leasable
--   and Ready are proofs.
-- TextArchive: scripts/text_archive.
--   Attempts: attempts.py. Drain: `_next_ready_batch`, `_import_one` and the loop of `main` in
--     importer.py. The other modules are proofs.
-- Files: scripts/retention.py.
-- Runner: scripts/control_runner.py.
--   Outage: `_OutagePolicy` and `_backoff`. Combined: `_collection_counters` and
--     `_combined_collection_report`. The other modules are proofs.
--
-- How it is modelled. A table is a list of rows; a transaction is a function from the tables to a
-- result, and an exception carries no tables, since it rolls back. Each call of the stores is one
-- transaction, so interleavings of workers are sequences of calls. A stored time is a number: whole
-- seconds in the frontier, milliseconds in the control store. Those texts have one width, so their
-- order is the order of the numbers.
--
-- Parameters: the SHA-256 fingerprint of a listing, the compression of bodies, the reading of a time
-- of the source (`normalize_source_timestamp`), `uuid.uuid4` for lease tokens, `uuid.UUID`,
-- `str.lower` and `json.dumps`; what the Worker and the site answer, and what
-- clocks read. Nothing is assumed of them.
--
-- An exception out of a flush undoes nothing, since each report is a transaction of its own.
--
-- Fuel: the loop of `_make_room` takes one round more than there are items, and each round but the
-- last deletes an item, so it always ends. The retries of `_request` are bounded by the code.
--
-- The loop of the importer takes at most 20 rounds, which are enough, since each imports a batch. What
-- a crawl cycle and the importer meet is a function from the round's number: clocks, files, sessions,
-- and how the worker or the import ends.
--
-- Not modelled: SQLite itself and its locks, the schema migrations, the CHECKs on the HTTP status and
-- on the length of a hash, `block_activity_summary`, the spider and the pipelines, the login,
-- `reconcile_board`, the Worker and its replies, exports, releases, what `import_batch` does to a batch
-- beyond its marks, and the rest of the text archive.
pub mod Prelude
pub mod Frontier
pub mod Store
pub mod Control
pub mod Crawl
pub mod Recover
pub mod Files
pub mod Runner
pub mod TextArchive
