-- ===== src/Frontier/Table.antt =====
-- The tables that crawler/frontier.py reads and writes (crawler/archive.py): `crawl_frontier`, and
-- of `boards` and `posts` the columns in use. A stored time is the number of whole seconds since
-- the epoch: the code writes UTC texts of one width, whose order is that of the numbers.
use re_dstm.Prelude.{
  ℕ, String, Bool, true, false, not, ◌&&◌, ◌||◌, Option, none, some, List, ◌==◌, ltb, str_eq, ℤ,
  is_some, is_none, any, find,
}

pub data State : Type 0 where
  pending running retry done dead : State

pub record Row : Type 0 where
  pub rowid : ℕ
  pub board_id : String
  pub external_post_id : ℕ
  pub url : String
  pub priority : ℤ
  pub state : State
  pub attempts : ℕ
  pub next_attempt_at : Option ℕ
  pub last_error_code : Option String
  pub last_attempt_at : Option ℕ
  pub lease_token : Option String
  pub lease_expires_at : Option ℕ
  pub expected_comment_count : Option ℕ
  pub listing_sha256 : Option String

pub record Board : Type 0 where
  pub board_id : String
  pub group_name : Option String
  pub is_enabled : Bool
  pub inventory_next_page : ℕ
  pub last_inventory_at : Option ℕ

pub record Post : Type 0 where
  pub id : ℕ
  pub board_id : String
  pub external_post_id : ℕ
  pub canonical_url : String
  pub title : String
  pub author : Option String
  pub category : Option String
  pub created_at_source : Option String
  pub created_at_raw : Option String
  pub first_seen_at : ℕ
  pub last_seen_at : ℕ
  pub views : ℕ
  pub comment_count : ℕ
  pub is_aa : Bool
  pub latest_version_id : Option ℕ
  pub availability : String
  pub last_collected_at : Option ℕ

pub record Archive : Type 0 where
  pub frontier : List Row
  pub boards : List Board
  pub posts : List Post

abbrev pub is_pending : State → Bool
is_pending pending = true
is_pending _ = false

abbrev pub is_running : State → Bool
is_running running = true
is_running _ = false

abbrev pub is_retry : State → Bool
is_retry retry = true
is_retry _ = false

abbrev pub is_done : State → Bool
is_done done = true
is_done _ = false

abbrev pub is_dead : State → Bool
is_dead dead = true
is_dead _ = false

-- `state IN ('pending', 'retry')`
abbrev pub is_waiting : State → Bool
is_waiting pending = true
is_waiting retry = true
is_waiting _ = false

-- Two CHECK constraints of `crawl_frontier`. A third, that `listing_sha256` has 64 characters, is not
-- modelled; the others are in the columns' types.
unfoldable pub row_check : Row → Bool
row_check r =
    ltb 0 r.external_post_id
    && ((is_running r.state && is_some r.lease_token && is_some r.lease_expires_at)
        || (not (is_running r.state) && is_none r.lease_token && is_none r.lease_expires_at))

-- `board_id = ? AND external_post_id = ?`
abbrev pub at : String → ℕ → Row → Bool
at b i r = str_eq r.board_id b && r.external_post_id == i

abbrev pub disables : String → Board → Bool
disables b board = str_eq board.board_id b && not board.is_enabled

-- `board_id NOT IN (SELECT board_id FROM boards WHERE is_enabled = 0)`
unfoldable pub enabled : List Board → String → Bool
enabled boards b = not (any (disables b) boards)

abbrev pub post_at : String → ℕ → Post → Bool
post_at b i p = str_eq p.board_id b && p.external_post_id == i

-- the post that a LEFT JOIN on the two key columns gives
unfoldable pub find_post : List Post → Row → Option Post
find_post posts r = find (post_at r.board_id r.external_post_id) posts

abbrev post_has_body : Option Post → Bool
post_has_body none = false
post_has_body (some p) = is_some p.latest_version_id

-- `post.latest_version_id IS NOT NULL`
unfoldable pub has_body : List Post → Row → Bool
unfolding find_post
has_body posts r = post_has_body (find_post posts r)

-- An optional `board_id` argument narrows a statement to one board.
abbrev pub on_board : Option String → Row → Bool
on_board none r = true
on_board (some b) r = str_eq r.board_id b

abbrev pub with_frontier : Archive → List Row → Archive
with_frontier a rows = record a { frontier = rows }
