-- ===== src/Frontier/Recovery.antt =====
-- `recovery_candidates` of crawler/frontier.py: it reopens rows, then ranks the rows that are due.
-- The two parts are two transactions; here the second reads what the first one left.
use Prim.Native.Nat.{compare, Ordering}
use Prim.Native.Char.{code}
use text.Mathlib.Text.{is_lt}
use re_dstm.Prelude.{
  ℕ, ◌+◌, String, Bool, true, false, not, ◌&&◌, ◌||◌, Option, none, some, List, [], ◌∷◌, map,
  Result, ok, value_error, raise_if, ◌>>=◌, ◌>>◌, ltb, leb, ◌==◌, str_eq, if◌then◌else◌, filter,
  take, count, find, update_where,
}
use re_dstm.Prelude.Sorting.{sort}
use re_dstm.Frontier.Table.{
  retry, Row, Board, Post, Archive, is_pending, is_retry, is_waiting, is_dead, enabled, has_body,
  on_board, with_frontier,
}
use re_dstm.Frontier.Clock.{DateTime, timestamp}
use re_dstm.Frontier.Order.{then_by, by_key, compare_ℤ}
use re_dstm.Frontier.Claim.{is_expired, requeue, is_due}
use re_dstm.Frontier.Requeue.{Key, key_of}

-- the code points of a text in lower case, as SQLite's `lower` has it: for A to Z only
abbrev pub lower_codes : String → List ℕ
lower_codes String.[] = []
lower_codes (String.◌∷◌ c s) =
    (if leb b'A' (code c) && leb (code c) b'Z' then code c + 32 else code c) ∷ lower_codes s

abbrev pub begins_with : List ℕ → List ℕ → Bool
begins_with [] text = true
begins_with (p ∷ ps) [] = false
begins_with (p ∷ ps) (c ∷ cs) = p == c && begins_with ps cs

abbrev pub occurs_in : List ℕ → List ℕ → Bool
occurs_in pattern [] = begins_with pattern []
occurs_in pattern (c ∷ cs) = begins_with pattern (c ∷ cs) || occurs_in pattern cs

-- `last_error_code = 'network_error' OR lower(last_error_code) LIKE '%timed out%'`
unfoldable pub is_network_code : Option String → Bool
is_network_code none = false
is_network_code (some c) =
    str_eq c "network_error" || occurs_in (lower_codes "timed out") (lower_codes c)

unfoldable pub is_network_dead : List Board → List Post → Option String → Bool → Row → Bool
is_network_dead boards posts board missing_only r =
    is_dead r.state
    && (enabled boards r.board_id
        && (is_network_code r.last_error_code
            && (on_board board r && (not missing_only || not (has_body posts r)))))

abbrev pub reopen_network : ℕ → Row → Row
reopen_network now r = record r { state = retry; next_attempt_at = some now }

unfoldable pub reopen_rows : Archive → ℕ → Option String → Bool → List Row
unfolding is_network_dead
reopen_rows a now board missing_only =
    let reopened =
      update_where (is_network_dead a.boards a.posts board missing_only) (reopen_network now)
        a.frontier in
    update_where (λ r. is_expired a.boards now r && on_board board r) (requeue now) reopened

abbrev pub rank : Bool → ℕ
rank true = 0
rank false = 1

-- `state_rank_sql`
abbrev pub state_rank : Bool → Row → ℕ
state_rank true r = rank (is_pending r.state)
state_rank false r = rank (is_retry r.state)

abbrev pub body_rank : List Post → Row → ℕ
body_rank posts r = rank (not (has_body posts r))

abbrev pub group_of : Option Board → Option String
group_of none = none
group_of (some b) = b.group_name

-- REDSTM_RECOVERY_GROUP_ORDER in a CASE
abbrev pub group_rank : Option String → ℕ
group_rank none = 3
group_rank (some g) =
    if str_eq g "aa"
    then 0
    else if str_eq g "creation"
    then 1
    else if str_eq g "fanfic"
    then 2
    else 3

-- the board of the LEFT JOIN
abbrev pub join_board : List Board → Row → Option Board
join_board boards r = find (λ (b : Board). str_eq b.board_id r.board_id) boards

abbrev pub board_group : List Board → Row → ℕ
board_group boards r = group_rank (group_of (join_board boards r))

abbrev pub compare_work : Row → Row → Ordering
compare_work r s = then_by (compare_ℤ s.priority r.priority) (compare r.attempts s.attempts)

-- the order inside a board's partition
unfoldable pub before_in_board : List Post → Bool → Row → Row → Bool
before_in_board posts missing_only r s = is_lt (
    then_by (compare (body_rank posts r) (body_rank posts s)) (
      then_by (compare (state_rank missing_only r) (state_rank missing_only s))
        (then_by (compare_work r s) (compare r.external_post_id s.external_post_id))))

-- `ROW_NUMBER() OVER (PARTITION BY board_id ORDER BY ...)`: one more than the rows before it
unfoldable pub board_rank : List Post → Bool → List Row → Row → ℕ
unfolding before_in_board
board_rank posts missing_only candidates r =
    count (λ s. str_eq s.board_id r.board_id && before_in_board posts missing_only s r) candidates
    + 1

unfoldable pub by_recovery : List Board → List Post → Bool → List Row → Row → Row → Bool
by_recovery boards posts missing_only candidates r s = is_lt (
    then_by (compare (body_rank posts r) (body_rank posts s)) (
      then_by
        (compare (board_rank posts missing_only candidates r)
          (board_rank posts missing_only candidates s))
        (then_by (compare (state_rank missing_only r) (state_rank missing_only s)) (
          then_by (compare (board_group boards r) (board_group boards s))
            (then_by (compare_work r s) (by_key r s))))))

-- `COALESCE(board.is_enabled, 1) = 1`
abbrev pub joined_enabled : Option Board → Bool
joined_enabled none = true
joined_enabled (some b) = b.is_enabled

unfoldable pub is_candidate : List Board → List Post → ℕ → Option String → Bool → Row → Bool
is_candidate boards posts now board missing_only r =
    (is_waiting r.state && (joined_enabled (join_board boards r) && is_due now r))
    && (on_board board r && (not missing_only || not (has_body posts r)))

unfoldable pub select_recovery : Archive → List Row → ℕ → ℕ → Option String → Bool → List Row
select_recovery a rows now limit board missing_only =
    let candidates = filter (is_candidate a.boards a.posts now board missing_only) rows in
    take limit (sort (by_recovery a.boards a.posts missing_only candidates) candidates)

unfoldable pub recovery_candidates :
    Archive → ℕ → DateTime → Option String → Bool → Result (List Key × Archive)
unfolding reopen_rows select_recovery
recovery_candidates a limit now board missing_only = do
  raise_if (ltb limit 1) (value_error "limit must be positive")
  selected_at ← timestamp now
  let rows = reopen_rows a selected_at board missing_only
  ok (
    map key_of (select_recovery a rows selected_at limit board missing_only),
    with_frontier a rows,
  )
