-- ===== src/Frontier/Claim.antt =====
-- `claim_identity` and `claim` of crawler/frontier.py, and the expiry of old leases with which
-- they begin. `uuid.uuid4().hex` is the argument `token`.
use mathlib.Core.List.{foldl}
use re_dstm.Prelude.{
  ℕ, ◌+◌, String, Bool, ◌&&◌, ◌||◌, Option, none, some, List, map, Result, ok, value_error,
  raise_if, ◌>>=◌, ◌>>◌, ltb, is_none, due_by, filter, take, find, map_row, update_where,
}
use re_dstm.Prelude.Sorting.{sort}
use re_dstm.Frontier.Table.{
  running, retry, Row, Board, Archive, is_running, is_waiting, at, enabled, with_frontier,
}
use re_dstm.Frontier.Clock.{DateTime, timestamp, after}
use re_dstm.Frontier.Lease.{Lease}
use re_dstm.Frontier.Order.{by_priority}

-- `state = 'running' AND lease_expires_at <= ? AND board_id NOT IN (...)`
unfoldable pub is_expired : List Board → ℕ → Row → Bool
is_expired boards now r =
    is_running r.state && (due_by r.lease_expires_at now && enabled boards r.board_id)

abbrev pub requeue : ℕ → Row → Row
requeue now r = record r {
  state = retry;
  lease_token = none;
  lease_expires_at = none;
  next_attempt_at = some now;
}

-- `next_attempt_at IS NULL OR next_attempt_at <= ?`
abbrev pub is_due : ℕ → Row → Bool
is_due now r = is_none r.next_attempt_at || due_by r.next_attempt_at now

unfoldable pub is_claimable : List Board → ℕ → Row → Bool
is_claimable boards now r = is_waiting r.state && (enabled boards r.board_id && is_due now r)

abbrev pub grant : ℕ → String → ℕ → Row → Row
grant now token expires r = record r {
  state = running;
  attempts = r.attempts + 1;
  last_attempt_at = some now;
  lease_token = some token;
  lease_expires_at = some expires;
}

-- the lease of a row as it stands after `grant`
abbrev pub lease_of : String → DateTime → Row → Lease
lease_of token expires r = record {
  board_id = r.board_id;
  external_post_id = r.external_post_id;
  url = r.url;
  attempts = r.attempts;
  lease_token = token;
  lease_expires_at = expires;
  expected_comment_count = r.expected_comment_count;
}

abbrev pub lease_found : String → DateTime → Option Row → Option Lease
lease_found token expires none = none
lease_found token expires (some r) = some (lease_of token expires r)

abbrev pub expire_one : List Board → String → ℕ → ℕ → List Row → List Row
expire_one boards b i now rows =
    update_where (λ r. at b i r && is_expired boards now r) (requeue now) rows

abbrev pub claims_one : List Board → String → ℕ → ℕ → Row → Bool
claims_one boards b i now r = at b i r && is_claimable boards now r

unfoldable pub claim_identity :
    Archive → String → ℕ → ℕ → DateTime → String → Result (Option Lease × Archive)
claim_identity a b i lease_seconds now token = do
  raise_if (ltb lease_seconds 1) (value_error "lease_seconds must be positive")
  claimed_at ← timestamp now
  let expires_at = after now lease_seconds
  expires ← timestamp expires_at
  let rows = expire_one a.boards b i claimed_at a.frontier
  let claimed = find (claims_one a.boards b i claimed_at) rows
  ok (
    lease_found token expires_at (map_row (grant claimed_at token expires) claimed),
    with_frontier a
        (update_where (claims_one a.boards b i claimed_at) (grant claimed_at token expires) rows),
  )

-- `executemany("UPDATE ... WHERE board_id = ? AND external_post_id = ?", rows)`
abbrev pub grant_each : ℕ → String → ℕ → List Row → Row → List Row
grant_each now token expires rows s =
    update_where (at s.board_id s.external_post_id) (grant now token expires) rows

unfoldable pub grant_all : ℕ → String → ℕ → List Row → List Row → List Row
grant_all now token expires rows selected = foldl (grant_each now token expires) rows selected

unfoldable pub select_due : List Board → ℕ → ℕ → List Row → List Row
select_due boards now limit rows =
    take limit (sort by_priority (filter (is_claimable boards now) rows))

unfoldable pub claim : Archive → ℕ → ℕ → DateTime → String → Result (List Lease × Archive)
claim a limit lease_seconds now token = do
  raise_if (ltb limit 1 || ltb lease_seconds 1)
      (value_error "limit and lease_seconds must be positive")
  claimed_at ← timestamp now
  let expires_at = after now lease_seconds
  expires ← timestamp expires_at
  let rows = update_where (is_expired a.boards claimed_at) (requeue claimed_at) a.frontier
  let selected = select_due a.boards claimed_at limit rows
  ok (
    map (λ r. lease_of token expires_at (grant claimed_at token expires r)) selected,
    with_frontier a (grant_all claimed_at token expires rows selected),
  )
