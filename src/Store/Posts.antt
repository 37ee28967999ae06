-- ===== src/Store/Posts.antt =====
-- `store_post`, `_replace_comments` and `latest_conditional_validator` of crawler/store.py: a post with
-- its body and comments.
pub mod Kept
pub mod Found
use re_dstm.Prelude.{
  ℕ, suc, max, String, Bool, true, false, not, ◌&&◌, ◌||◌, Option, none, some, List, [], ◌∷◌, ◌++◌,
  map, Result, ok, err, integrity_error, raise_if, ◌>>=◌, ◌>>◌, ltb, ◌==◌, str_eq, is_text, is_some,
  is_none, coalesce, if◌then◌else◌, any, filter, count, find, update_where, length, pos,
}
use re_dstm.Frontier.Table.{Post, Archive, post_at}
use re_dstm.Frontier.Clock.{DateTime}
use re_dstm.Frontier.Lease.{Lease, complete_lease}
use re_dstm.Frontier.Outcome.{retry_capped}
use re_dstm.Store.Tables.{
  post, Outcome, stored, unmodified, parse_failed, Capture, Version, Comment, Store, is_post, stamp,
  require_running_run, add_capture, is_orphan,
}
use re_dstm.Store.Captures.{find_last}
use re_dstm.Store.Discovered.{max_id, id_of}
use re_dstm.Store.Bodies.{
  NewComment, NewPost, Fetched, Tools, StoreResult, key_of, of_post, short_of, shortage,
  post_capture, keep_body, is_projected, project, upsert, clashes, version_of, add_version,
  is_latest,
}

abbrev has_position : ℕ → NewComment → Bool
has_position i c = c.position == i

-- the CHECK and the foreign key on the parent
abbrev is_parent : List NewComment → ℕ → Option ℕ → Bool
is_parent comments i none = true
is_parent comments i (some j) = ltb j i && any (has_position j) comments

abbrev is_valid : List NewComment → NewComment → Bool
is_valid comments c =
    ltb 0 c.position
    && (count (has_position c.position) comments == 1
        && is_parent comments c.position c.parent_position)

abbrev comment_row : Tools → Fetched → ℕ → NewComment → Comment
comment_row tools f post_id c = record {
  post_id = post_id;
  position = c.position;
  source_comment_id = c.source_comment_id;
  author = c.author;
  content_html = c.content_html;
  content_text = c.content_text;
  created_at_source = tools.source_time c.created_at_raw f.captured_at;
  created_at_raw = c.created_at_raw;
  parent_position = c.parent_position;
  depth = c.depth;
}

-- `_replace_comments`
unfoldable pub replace_comments :
    Tools → Fetched → ℕ → List NewComment → List Comment → Result (List Comment)
replace_comments tools f post_id new comments = do
  raise_if (any (λ c. not (is_valid new c)) new) (integrity_error "comments")
  ok (filter (λ c. not (of_post post_id c)) comments ++ map (comment_row tools f post_id) new)

abbrev pub comments_if :
    Bool → Tools → Fetched → ℕ → List NewComment → List Comment → Result (List Comment)
comments_if true tools f post_id new comments = replace_comments tools f post_id new comments
comments_if false tools f post_id new comments = ok comments

abbrev pub with_version : ℕ → Post → Post
with_version version p = record p { latest_version_id = some version }

-- the block `if version_changed` on the post
abbrev pub point_to : Bool → ℕ → ℕ → List Post → List Post
point_to true post_id version posts =
    update_where (λ (p : Post). p.id == post_id) (with_version version) posts
point_to false post_id version posts = posts

abbrev end_expected : Archive → Lease → NewPost → DateTime → Option ℕ → Result Archive
end_expected a lease n at none = complete_lease a lease (some (pos (length n.comments)))
end_expected a lease n at (some expected) =
    if ltb (length n.comments) expected
    then retry_capped a lease "incomplete_comments" at
    else complete_lease a lease (some (pos (length n.comments)))

unfoldable pub end_lease : Archive → NewPost → DateTime → Option Lease → Result Archive
end_lease a n at none = ok a
end_lease a n at (some lease) = end_expected a lease n at lease.expected_comment_count

abbrev outcome_of : Bool → Outcome
outcome_of changed = if changed then stored else unmodified

-- The body and comments are stored, for the post that was there before. Its board
-- is looked at when it is new.
unfoldable pub put_body :
    Tools → Store → NewPost → Fetched → ℕ → Option Post → Result (StoreResult × Store)
unfolding upsert add_version is_projected
put_body tools s n f at existing = do
  raise_if (n.external_post_id == 0)
      (integrity_error "CHECK constraint failed: external_post_id > 0")
  raise_if (any (clashes n) s.archive.posts)
      (integrity_error "UNIQUE constraint failed: posts.canonical_url")
  raise_if (is_none existing && is_orphan s.archive.boards n.board_id)
      (integrity_error "FOREIGN KEY constraint failed")
  let time = tools.source_time n.created_at_raw f.captured_at
  let posts = upsert n time at s.archive.posts
  let post_id = id_of (find (key_of n) posts)
  let v = add_version tools n f at post_id s.versions
  let version_changed = not (is_latest existing v.0)
  comments ← comments_if version_changed tools f post_id n.comments s.comments
  let changed = not (is_projected n time existing) || version_changed
  let a = record s.archive { posts = point_to version_changed post_id v.0 posts }
  let stored_body = record s { archive = a; versions = v.1; comments = comments }
  let added = add_capture stored_body (post_capture n f at post_id (outcome_of changed))
  b ← end_lease a n f.captured_at f.lease
  ok (
    record { post_id = post_id; version_id = v.0; capture_id = added.0; changed = changed },
    record added.1 { archive = b },
  )

unfoldable pub store_or_keep :
    Tools
    → Store
    → NewPost
    → Fetched
    → ℕ
    → Option Post
    → Option (Post × Lease × ℕ)
    → Result (StoreResult × Store)
unfolding keep_body put_body
store_or_keep tools s n f at existing (some (p, lease, version)) =
    keep_body s n f at p lease version
store_or_keep tools s n f at existing none = put_body tools s n f at existing

unfoldable pub store_post : Tools → Store → NewPost → Fetched → Result (StoreResult × Store)
unfolding shortage store_or_keep
store_post tools s n f = do
  at ← stamp f.captured_at
  require_running_run s.runs f.run_id
  let existing = find (key_of n) s.archive.posts
  store_or_keep tools s n f at existing (shortage s n f.lease existing)

-- VALIDATOR_QUERY: a stored capture of the post and URL
abbrev has_post : ℕ → Option ℕ → Bool
has_post id none = false
has_post id (some i) = i == id

abbrev is_stored : Outcome → Bool
is_stored stored = true
is_stored _ = false

abbrev pub validates : ℕ → String → Capture → Bool
validates post_id url c =
    has_post post_id c.post_id && (str_eq c.url url && (is_post c.entity && is_stored c.outcome))

abbrev validators : Option Capture → Option (Option String × Option String)
validators none = none
validators (some c) =
    if is_none c.etag && is_none c.last_modified then none else some (c.etag, c.last_modified)

abbrev of_found : Store → String → Option Post → Option (Option String × Option String)
of_found s url none = none
of_found s url (some p) = validators (find_last (validates p.id url) s.captures)

unfoldable pub latest_conditional_validator :
    Store → String → String → ℕ → Option (Option String × Option String)
latest_conditional_validator s url board_id external_post_id =
    of_found s url (find (post_at board_id external_post_id) s.archive.posts)
