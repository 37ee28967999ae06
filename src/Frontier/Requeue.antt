-- ===== src/Frontier/Requeue.antt =====
-- The requeue operations of crawler/frontier.py: full content, stale details, dead rows.
use mathlib.Core.List.{foldl}
use text.Mathlib.Text.{is_lt}
use re_dstm.Prelude.{
  ℕ, String, Bool, true, not, ◌&&◌, Option, none, some, List, map, Result, ok, value_error,
  raise_if, ◌>>=◌, ◌>>◌, ltb, leb, is_text, text_in, coalesce, due_by, filter, take, count, any,
  update_where,
}
use re_dstm.Prelude.Sorting.{sort}
use re_dstm.Frontier.Table.{
  State, pending, retry, Row, Board, Post, Archive, is_running, is_done, is_dead, at, enabled,
  find_post, has_body, on_board, with_frontier,
}
use re_dstm.Frontier.Clock.{DateTime, timestamp}
use re_dstm.Frontier.Seed.{capped_codes, code_in}
use re_dstm.Frontier.Order.{then_by, by_key, by_priority, compare_time}
use re_dstm.Frontier.Claim.{is_expired, requeue}

abbrev pub Key : Type 0
Key = String × ℕ

abbrev pub key_of : Row → Key
key_of r = (r.board_id, r.external_post_id)

-- a fresh start: `attempts = 0` and every NULL
abbrev pub restart : State → Row → Row
restart state r = record r {
  state = state;
  attempts = 0;
  next_attempt_at = none;
  last_error_code = none;
  lease_token = none;
  lease_expires_at = none;
}

-- `julianday(last_attempt_at) < julianday(?)`, or NULL
abbrev pub not_tried_since : ℕ → Option ℕ → Bool
not_tried_since cutoff none = true
not_tried_since cutoff (some t) = ltb t cutoff

unfoldable pub wants_full_content : List Board → ℕ → ℕ → Option String → Row → Bool
wants_full_content boards max_rowid cutoff board r =
    leb r.rowid max_rowid
    && (enabled boards r.board_id && (not_tried_since cutoff r.last_attempt_at && on_board board r))

unfoldable pub by_last_attempt : Row → Row → Bool
by_last_attempt r s =
    is_lt (then_by (compare_time r.last_attempt_at s.last_attempt_at) (by_key r s))

-- `executemany` over the selected rows, with a further test on the state
unfoldable pub restart_each : State → (Row → Bool) → List Row → List Row → List Row
restart_each state test rows selected =
    foldl
      (λ rows s.
        update_where (λ r. at s.board_id s.external_post_id r && test r) (restart state) rows)
      rows selected

unfoldable pub requeue_full_content :
    Archive → ℕ → ℕ → DateTime → Option String → DateTime → Result (List Key × Archive)
requeue_full_content a limit max_rowid attempted_before board now = do
  raise_if (ltb limit 1) (value_error "full-content bounds are invalid")
  raise_if (not attempted_before.aware) (value_error "attempted_before must be timezone-aware")
  selected_at ← timestamp now
  cutoff ← timestamp attempted_before
  let rows = update_where (is_expired a.boards selected_at) (requeue selected_at) a.frontier
  let selected = take limit (
      sort by_last_attempt (
        filter
          (λ r. wants_full_content a.boards max_rowid cutoff board r && not (is_running r.state))
          rows))
  ok (
    map key_of selected,
    with_frontier a (restart_each pending (λ r. not (is_running r.state)) rows selected),
  )

unfoldable pub full_content_remaining : Archive → ℕ → DateTime → Option String → Result ℕ
unfolding wants_full_content
full_content_remaining a max_rowid attempted_before board = do
  raise_if (not attempted_before.aware) (value_error "full-content checkpoint is invalid")
  cutoff ← timestamp attempted_before
  ok (count (wants_full_content a.boards max_rowid cutoff board) a.frontier)

abbrev pub collected_at : Option Post → Option ℕ
collected_at none = none
collected_at (some p) = p.last_collected_at

-- `COALESCE(post.last_collected_at, frontier.last_attempt_at)`
unfoldable pub detail_time : List Post → Row → Option ℕ
detail_time posts r = coalesce (collected_at (find_post posts r)) r.last_attempt_at

unfoldable pub is_stale : List Board → List Post → ℕ → Option String → Row → Bool
is_stale boards posts cutoff board r =
    is_done r.state
    && (enabled boards r.board_id && (due_by (detail_time posts r) cutoff && on_board board r))

unfoldable pub by_detail_time : List Post → Row → Row → Bool
by_detail_time posts r s =
    is_lt (then_by (compare_time (detail_time posts r) (detail_time posts s)) (by_key r s))

unfoldable pub requeue_stale_details :
    Archive → ℕ → DateTime → Option String → Result (List Key × Archive)
requeue_stale_details a limit stale_before board = do
  raise_if (ltb limit 1) (value_error "limit must be positive")
  cutoff ← timestamp stale_before
  let selected =
      take limit
        (sort (by_detail_time a.posts) (filter (is_stale a.boards a.posts cutoff board) a.frontier))
  ok (
    map key_of selected,
    with_frontier a (restart_each pending (λ r. is_done r.state) a.frontier selected),
  )

unfoldable pub is_revivable : List Board → List Post → Option String → Row → Bool
is_revivable boards posts board r =
    is_dead r.state
    && (enabled boards r.board_id
        && (code_in r.last_error_code capped_codes && (on_board board r && not (has_body posts r))))

-- The count that `rowcount` gives, and the archive.
unfoldable pub revive_missing_dead : Archive → Option String → ℕ × Archive
unfolding is_revivable
revive_missing_dead a board = (
  count (is_revivable a.boards a.posts board) a.frontier,
  with_frontier a (update_where (is_revivable a.boards a.posts board) (restart retry) a.frontier),
)

unfoldable pub is_dead_with : List Board → String → Option String → Row → Bool
is_dead_with boards code board r =
    is_dead r.state
    && (is_text r.last_error_code code && (enabled boards r.board_id && on_board board r))

-- `(board_id, external_post_id) IN (SELECT ...)`
abbrev pub is_selected : List Row → Row → Bool
is_selected selected r = any (λ (s : Row). at s.board_id s.external_post_id r) selected

unfoldable pub requeue_dead : Archive → String → ℕ → Option String → Result (List Key × Archive)
requeue_dead a error_code limit board = do
  raise_if (not (text_in error_code capped_codes))
      (value_error "unsupported dead frontier error code")
  raise_if (ltb limit 1) (value_error "limit must be positive")
  let selected =
      take limit (sort by_priority (filter (is_dead_with a.boards error_code board) a.frontier))
  ok (
    map key_of (sort by_priority (filter (is_selected selected) a.frontier)),
    with_frontier a (update_where (is_selected selected) (restart retry) a.frontier),
  )
