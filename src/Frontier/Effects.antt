-- ===== src/Frontier/Effects.antt =====
-- What the operations on one post do, column by column: how its row stands after a lease is given and
-- after it is ended, and that every other post keeps its row.
use re_dstm.Prelude.{
  ℕ, ◌+◌, String, ◌≡◌, ap, ◌∙◌, Bool, false, ◌&&◌, Option, none, some, List, if◌then◌else◌, find,
  map_row, update_row, update_where,
}
use re_dstm.Frontier.Table.{State, running, Row, Archive, is_running, at}
use re_dstm.Frontier.Clock.{DateTime}
use re_dstm.Frontier.Lease.{Lease}
use re_dstm.Frontier.Keys.{KeepsKey, find_at-update_where}

-- what no operation on a lease touches
pub record SamePost (r r' : Row) : Type 0 where
  pub same_rowid : r'.rowid ≡ r.rowid
  pub same_board : r'.board_id ≡ r.board_id
  pub same_post : r'.external_post_id ≡ r.external_post_id
  pub same_url : r'.url ≡ r.url
  pub same_priority : r'.priority ≡ r.priority
  pub same_listing : r'.listing_sha256 ≡ r.listing_sha256

-- The row `r'` runs under a lease from `now` to `until` that was given to the row `r`. A row whose old
-- lease had expired keeps `now` as its retry time.
pub record IsLeased (now until : ℕ) (token : String) (r r' : Row) : Type 0 where
  pub post : SamePost r r'
  pub runs : r'.state ≡ running
  pub counted : r'.attempts ≡ r.attempts + 1
  pub tried : r'.last_attempt_at ≡ some now
  pub token_is : r'.lease_token ≡ some token
  pub expires_is : r'.lease_expires_at ≡ some until
  pub retry_is : r'.next_attempt_at ≡ (if is_running r.state then some now else r.next_attempt_at)
  pub same_error : r'.last_error_code ≡ r.last_error_code
  pub same_expected : r'.expected_comment_count ≡ r.expected_comment_count

-- the lease that is given for the row `r`
pub record IsLeaseFor (until : DateTime) (token : String) (r : Row) (lease : Lease) : Type 0 where
  pub of_board : lease.board_id ≡ r.board_id
  pub of_post : lease.external_post_id ≡ r.external_post_id
  pub of_url : lease.url ≡ r.url
  pub attempt : lease.attempts ≡ r.attempts + 1
  pub under : lease.lease_token ≡ token
  pub ends : lease.lease_expires_at ≡ until
  pub expects : lease.expected_comment_count ≡ r.expected_comment_count

-- The row `r'` is what the end of a lease makes of the row `r`: it has no lease, and is in the given
-- state, with the retry time, the error code and the comment count.
pub record IsEnded (state : State) (next : Option ℕ) (code : Option String) (comments : Option ℕ)
    (r r' : Row) : Type 0 where
  pub post : SamePost r r'
  pub state_is : r'.state ≡ state
  pub next_is : r'.next_attempt_at ≡ next
  pub code_is : r'.last_error_code ≡ code
  pub comments_is : r'.expected_comment_count ≡ comments
  pub no_token : r'.lease_token ≡ none
  pub no_expiry : r'.lease_expires_at ≡ none
  pub same_attempts : r'.attempts ≡ r.attempts
  pub same_tried : r'.last_attempt_at ≡ r.last_attempt_at

-- The rows of the posts but one, and the other tables, are as they were.
pub record IsLocal (b : String) (i : ℕ) (a a' : Archive) : Type 0 where
  pub others :
      (b' : String) (i' : ℕ) (s : Row)
      → find (at b' i') a.frontier ≡ some s
      → at b i s ≡ false
      → find (at b' i') a'.frontier ≡ some s
  pub same_boards : a'.boards ≡ a.boards
  pub same_posts : a'.posts ≡ a.posts

-- An update of rows under one key leaves the row that another key finds.
pub find_other :
    (f : Row → Row) (k : KeepsKey f) (b : String) (i : ℕ) (p : Row → Bool) (b' : String) (i' : ℕ)
    (rows : List Row) (s : Row)
    → find (at b' i') rows ≡ some s
    → at b i s ≡ false
    → find (at b' i') (update_where (λ r. at b i r && p r) f rows) ≡ some s
find_other f k b i p b' i' rows s e other =
    find_at-update_where f k (λ r. at b i r && p r) b' i' rows
    ∙ ap (map_row (update_row (λ r. at b i r && p r) f)) e
    ∙ kept
  where
    kept : map_row (update_row (λ r. at b i r && p r) f) (some s) ≡ some s
    kept = rw other
