-- ===== src/Store/Tests/Bodies.antt =====
-- Runs of `store_post` on concrete tables.
use re_dstm.Prelude.{ℕ, ◌*◌, raise_if, ◌>>=◌, ◌≡◌, refl, true, none, some, [], ◌∷◌, find, ok}
use re_dstm.Store.Tables.{Store, stamp, require_running_run}
use re_dstm.Prelude.{Result, err, false, pos, ◌≤◌, count, arith}
use re_dstm.Store.Bodies.{NewComment, NewPost, Fetched, Tools, StoreResult, shortage}
use re_dstm.Store.Posts.{store_post, replace_comments, end_lease}
use re_dstm.Store.Posts.Found.{IsStored, store_post-IsStored}
use re_dstm.Frontier.Table.{Post, Row, State}
use re_dstm.Frontier.Clock.{retry_backoff, optional_timestamp, timestamp}
use re_dstm.Frontier.Lease.{Lease, transition_lease}
use re_dstm.Frontier.Outcome.{retry_capped, dead_code}
use re_dstm.Store.Tables.{Comment, is_orphan}
use re_dstm.Store.Bodies.{of_post}
use re_dstm.Store.Posts.Kept.{store_post-NoFewer}
use re_dstm.Store.Tests.{clock, store}

abbrev tools : Tools
tools = record { source_time = λ raw base. raw; compress = λ body. body }

abbrev remark : ℕ → NewComment
remark i = record {
  position = i;
  source_comment_id = none;
  parent_position = none;
  depth = 0;
  author = none;
  content_html = "";
  content_text = "";
  created_at_raw = none;
}

abbrev article : NewPost
article = record {
  board_id = "ss_19";
  external_post_id = 5;
  canonical_url = "https://example.org/5";
  title = "one";
  author = some "a";
  category = none;
  created_at_raw = none;
  views = 3;
  body_html = "<p>";
  body_text = "p";
  is_aa = false;
  comments = remark 1 ∷ [];
  content_sha256 = "c1";
  comments_sha256 = "d1";
  warc_record_id = none;
}

abbrev fetched : Fetched
fetched = record {
  run_id = "sync-1";
  captured_at = clock;
  raw_sha256 = none;
  warc_file = none;
  http_status = 200;
  parser_version = "1";
  lease = none;
  etag = none;
  last_modified = none;
}

-- the second value of a result, and a first one that stands for none
abbrev value : Result (StoreResult × Store) → StoreResult × Store
value (ok r) = r
value (err e) = (record { post_id = 0; version_id = 0; capture_id = 0; changed = false }, store)

abbrev stores : StoreResult × Store
stores = value (store_post tools store article fetched)

store_post-stores : store_post tools store article fetched ≡ ok stores
unfolding store_post stamp require_running_run find ◌>>=◌ raise_if replace_comments end_lease
    is_orphan
store_post-stores = refl

store_post-IsStored_example : IsStored article stores
unfolding shortage
store_post-IsStored_example =
    store_post-IsStored tools store article fetched stores.0 stores.1 refl store_post-stores

-- the article is stored with two comments, and a fetch under a lease that expects two brings one
abbrev article_row : Post
article_row = record {
  id = 1;
  board_id = "ss_19";
  external_post_id = 5;
  canonical_url = "https://example.org/5";
  title = "one";
  author = none;
  category = none;
  created_at_source = none;
  created_at_raw = none;
  first_seen_at = 0;
  last_seen_at = 0;
  views = 0;
  comment_count = 2;
  is_aa = false;
  latest_version_id = some 1;
  availability = "available";
  last_collected_at = none;
}

abbrev comment : ℕ → Comment
comment i = record {
  post_id = 1;
  position = i;
  source_comment_id = none;
  author = none;
  content_html = "";
  content_text = "";
  created_at_source = none;
  created_at_raw = none;
  parent_position = none;
  depth = 0;
}

abbrev queued : Row
queued = record {
  rowid = 1;
  board_id = "ss_19";
  external_post_id = 5;
  url = "https://example.org/5";
  priority = pos 0;
  state = State.running;
  attempts = 1;
  next_attempt_at = none;
  last_error_code = none;
  last_attempt_at = some 900;
  lease_token = some "t";
  lease_expires_at = some 2000;
  expected_comment_count = some 2;
  listing_sha256 = none;
}

abbrev lease : Lease
lease = record {
  board_id = "ss_19";
  external_post_id = 5;
  url = "https://example.org/5";
  attempts = 1;
  lease_token = "t";
  lease_expires_at = record { aware = true; micros = 2000 * 1000000 };
  expected_comment_count = some 2;
}

abbrev full_store : Store
full_store = record store {
  archive = record { frontier = queued ∷ []; boards = []; posts = article_row ∷ [] };
  comments = comment 1 ∷ comment 2 ∷ [];
}

abbrev leased : Fetched
leased = record fetched { lease = some lease }

abbrev keeps : StoreResult × Store
keeps = value (store_post tools full_store article leased)

store_post-keeps : store_post tools full_store article leased ≡ ok keeps
unfolding store_post stamp require_running_run find ◌>>=◌ raise_if retry_capped dead_code
    transition_lease retry_backoff optional_timestamp timestamp
store_post-keeps = refl

store_post-NoFewer_example : 2 ≤ count (of_post 1) keeps.1.comments
unfolding find
store_post-NoFewer_example =
    store_post-NoFewer tools full_store article leased lease article_row 1 2 keeps.0 keeps.1 refl
      refl refl refl (omega arith) store_post-keeps
