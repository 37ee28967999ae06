-- ===== src/Frontier/Lease.antt =====
-- `FrontierLease`, `transition_lease`, `complete_lease` and `FrontierStore.complete` of
-- crawler/frontier.py. An exception rolls the transaction back, so an error carries no archive.
use re_dstm.Prelude.{
  ℕ, String, Bool, true, false, not, ◌&&◌, Option, none, some, Result, ok, value_error,
  runtime_error, raise_if, ◌>>=◌, ◌>>◌, ◌==◌, is_text, is_some, coalesce, count, update_where, ℤ,
  pos, negsuc,
}
use re_dstm.Frontier.Table.{
  State, retry, done, dead, Row, Archive, is_running, is_retry, at, with_frontier,
}
use re_dstm.Frontier.Clock.{DateTime, optional_timestamp}

pub record Lease : Type 0 where
  pub board_id : String
  pub external_post_id : ℕ
  pub url : String
  pub attempts : ℕ
  pub lease_token : String
  pub lease_expires_at : DateTime
  pub expected_comment_count : Option ℕ

-- the WHERE clause of both statements
abbrev pub held_by : Lease → Row → Bool
held_by lease r =
    at lease.board_id lease.external_post_id r
    && (is_running r.state && is_text r.lease_token lease.lease_token)

-- `state in {"done", "retry", "dead"}`
abbrev pub is_terminal : State → Bool
is_terminal done = true
is_terminal retry = true
is_terminal dead = true
is_terminal _ = false

abbrev pub release : State → Option ℕ → Option String → Row → Row
release state next error_code r = record r {
  state = state;
  next_attempt_at = next;
  last_error_code = error_code;
  lease_token = none;
  lease_expires_at = none;
}

unfoldable pub transition_lease :
    Archive → Lease → State → Option String → Option DateTime → Result Archive
transition_lease a lease state error_code next_attempt_at = do
  raise_if (not (is_terminal state))
      (value_error "frontier terminal state must be done, retry, or dead")
  raise_if (not (is_retry state) && is_some next_attempt_at)
      (value_error "only retry state may have next_attempt_at")
  next ← optional_timestamp next_attempt_at
  raise_if (not (count (held_by lease) a.frontier == 1))
      (runtime_error "stale or missing frontier lease")
  ok (with_frontier a (update_where (held_by lease) (release state next error_code) a.frontier))

-- `x is not None and x < 0`; a bool or another type than int is no value of the model.
abbrev pub is_bad_count : Option ℤ → Bool
is_bad_count none = false
is_bad_count (some (pos n)) = false
is_bad_count (some (negsuc n)) = true

abbrev pub as_count : Option ℤ → Option ℕ
as_count none = none
as_count (some (pos n)) = some n
as_count (some (negsuc n)) = none

abbrev pub finish : Option ℕ → Row → Row
finish stored r = record r {
  state = done;
  next_attempt_at = none;
  last_error_code = none;
  lease_token = none;
  lease_expires_at = none;
  expected_comment_count = coalesce stored r.expected_comment_count;
}

unfoldable pub complete_lease : Archive → Lease → Option ℤ → Result Archive
complete_lease a lease stored_comment_count = do
  raise_if (is_bad_count stored_comment_count)
      (value_error "stored_comment_count must be a non-negative integer or None")
  raise_if (not (count (held_by lease) a.frontier == 1))
      (runtime_error "stale or missing frontier lease")
  ok (
      with_frontier a
        (update_where (held_by lease) (finish (as_count stored_comment_count)) a.frontier))

-- `FrontierStore.complete`
unfoldable pub complete : Archive → Lease → Result Archive
unfolding complete_lease
complete a lease = complete_lease a lease none
