-- ===== src/Store/Runs.antt =====
-- `start_run`, `interrupt_stale_crawl_runs` and `finish_run` of crawler/store.py.
pub mod Interrupting
use Prim.Native.String
use re_dstm.Prelude.{
  ℕ, String, Bool, true, false, not, ◌&&◌, none, some, List, [], ◌∷◌, ◌++◌, Result, ok,
  integrity_error, raise_if, ◌>>=◌, ◌>>◌, str_eq, text_in, any, count, update_where,
}
use re_dstm.Frontier.Clock.{DateTime}
use re_dstm.Store.Tables.{
  RunStatus, running, interrupted, Run, Capture, Outcome, stored, unmodified, parse_failed,
  fetch_failed, Store, is_running, is_post, run_at, stamp, require_running_run,
}

-- the CHECK on `crawl_runs.kind`
abbrev kinds : List String
kinds = "sync" ∷ "backfill" ∷ "retry" ∷ "inventory" ∷ "import" ∷ []

abbrev new_run : String → String → ℕ → Run
new_run id kind at = record {
  run_id = id;
  kind = kind;
  status = running;
  started_at = at;
  finished_at = none;
  discovered = 0;
  fetched = 0;
  changed = 0;
  unchanged = 0;
  failures = 0;
  summary_json = "{}";
}

-- `f"{kind}-{uuid.uuid4().hex}"`, for the hexadecimal text given
abbrev run_name : String → String → String
run_name kind hex = String.◌++◌ kind (String.◌++◌ "-" hex)

unfoldable pub start_run : Store → String → String → DateTime → Result (String × Store)
start_run s kind hex now = do
  at ← stamp now
  raise_if (not (text_in kind kinds)) (integrity_error "CHECK constraint failed: kind")
  raise_if (any (run_at (run_name kind hex)) s.runs)
      (integrity_error "UNIQUE constraint failed: crawl_runs.run_id")
  ok (run_name kind hex, record s { runs = s.runs ++ new_run (run_name kind hex) kind at ∷ [] })

-- `status = 'running' AND kind IN ('sync', 'retry', 'inventory')`
abbrev pub is_stale_run : Run → Bool
is_stale_run r = is_running r.status && text_in r.kind ("sync" ∷ "retry" ∷ "inventory" ∷ [])

abbrev pub interrupt : ℕ → Run → Run
interrupt at r = record r {
  status = interrupted;
  finished_at = some at;
  summary_json = "{\"error\":\"process_interrupted\"}";
}

unfoldable pub interrupt_stale_crawl_runs : Store → DateTime → Result (ℕ × Store)
interrupt_stale_crawl_runs s now = do
  at ← stamp now
  ok (
    count is_stale_run s.runs,
    record s { runs = update_where is_stale_run (interrupt at) s.runs },
  )

-- `run_id = ? AND entity_type = 'post'`
abbrev pub of_run : String → Capture → Bool
of_run id c = str_eq c.run_id id && is_post c.entity

abbrev pub is_stored : Outcome → Bool
is_stored stored = true
is_stored _ = false

abbrev pub is_unmodified : Outcome → Bool
is_unmodified unmodified = true
is_unmodified _ = false

abbrev pub is_failure : Outcome → Bool
is_failure parse_failed = true
is_failure fetch_failed = true
is_failure _ = false

abbrev pub count_fetched : String → List Capture → ℕ
count_fetched id = count (of_run id)

abbrev pub count_changed : String → List Capture → ℕ
count_changed id = count (λ c. of_run id c && is_stored c.outcome)

abbrev pub count_unchanged : String → List Capture → ℕ
count_unchanged id = count (λ c. of_run id c && is_unmodified c.outcome)

abbrev pub count_failed : String → List Capture → ℕ
count_failed id = count (λ c. of_run id c && is_failure c.outcome)

abbrev pub finish : String → List Capture → RunStatus → ℕ → ℕ → String → Run → Run
finish id captures status at discovered summary r = record r {
  status = status;
  finished_at = some at;
  discovered = discovered;
  fetched = count_fetched id captures;
  changed = count_changed id captures;
  unchanged = count_unchanged id captures;
  failures = count_failed id captures;
  summary_json = summary;
}

-- `json.dumps(summary or {})` is the argument `summary`. The status 'running' with a time of its end
-- breaks the table's CHECK.
unfoldable pub finish_run : Store → String → RunStatus → ℕ → String → DateTime → Result Store
finish_run s id status discovered summary now = do
  at ← stamp now
  require_running_run s.runs id
  raise_if (is_running status) (integrity_error "CHECK constraint failed: status")
  ok (record s {
    runs = update_where (run_at id) (finish id s.captures status at discovered summary) s.runs;
  })
