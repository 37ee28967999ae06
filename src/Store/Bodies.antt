-- ===== src/Store/Bodies.antt =====
-- The parts of `store_post` of crawler/store.py: what it is given, the refusal of a comment list that
-- is too short, and the rows of the post and its version. The compression of a body and the reading of a source's time are parameters.
use re_dstm.Prelude.{
  ℕ, suc, max, String, Bool, true, false, not, ◌&&◌, Option, none, some, List, [], ◌∷◌, ◌++◌,
  Result, ok, ◌>>=◌, ltb, ◌==◌, str_eq, is_text, coalesce, if◌then◌else◌, any, count, find,
  update_where, length,
}
use re_dstm.Frontier.Table.{Post, post_at}
use re_dstm.Frontier.Clock.{DateTime}
use re_dstm.Frontier.Lease.{Lease}
use re_dstm.Frontier.Outcome.{retry_capped}
use re_dstm.Store.Tables.{
  post, Outcome, parse_failed, Capture, Version, Comment, Store, add_capture,
}
use re_dstm.Store.Discovered.{max_id}

-- `NormalizedComment`
pub record NewComment : Type 0 where
  pub position : ℕ
  pub source_comment_id : Option String
  pub parent_position : Option ℕ
  pub depth : ℕ
  pub author : Option String
  pub content_html : String
  pub content_text : String
  pub created_at_raw : Option String

-- `NormalizedPost`
pub record NewPost : Type 0 where
  pub board_id : String
  pub external_post_id : ℕ
  pub canonical_url : String
  pub title : String
  pub author : Option String
  pub category : Option String
  pub created_at_raw : Option String
  pub views : ℕ
  pub body_html : String
  pub body_text : String
  pub is_aa : Bool
  pub comments : List NewComment
  pub content_sha256 : String
  pub comments_sha256 : String
  pub warc_record_id : Option String

-- what the call is given beside the post
pub record Fetched : Type 0 where
  pub run_id : String
  pub captured_at : DateTime
  pub raw_sha256 : Option String
  pub warc_file : Option String
  pub http_status : ℕ
  pub parser_version : String
  pub lease : Option Lease
  pub etag : Option String
  pub last_modified : Option String

-- `normalize_source_timestamp(raw, base=...)`, and `compress_body`
pub record Tools : Type 0 where
  pub source_time : Option String → DateTime → Option String
  pub compress : String → String

pub record StoreResult : Type 0 where
  pub post_id : ℕ
  pub version_id : ℕ
  pub capture_id : ℕ
  pub changed : Bool

abbrev pub key_of : NewPost → Post → Bool
key_of n = post_at n.board_id n.external_post_id

abbrev pub of_post : ℕ → Comment → Bool
of_post id c = c.post_id == id

-- A list shorter than the lease expects, which would replace a longer one of a stored version: the
-- post, the lease and the version.
abbrev pub short_of :
    Store → NewPost → Post → Lease → Option ℕ → Option ℕ → Option (Post × Lease × ℕ)
short_of s n p lease (some version) (some expected) =
    if ltb (length n.comments) expected && ltb (length n.comments) (count (of_post p.id) s.comments)
    then some (p, lease, version)
    else none
short_of s n p lease version expected = none

unfoldable pub shortage : Store → NewPost → Option Lease → Option Post → Option (Post × Lease × ℕ)
shortage s n (some lease) (some p) =
    short_of s n p lease p.latest_version_id lease.expected_comment_count
shortage s n lease p = none

abbrev pub post_capture : NewPost → Fetched → ℕ → ℕ → Outcome → Capture
post_capture n f at post_id outcome = record {
  id = 0;
  run_id = f.run_id;
  url = n.canonical_url;
  entity = post;
  post_id = some post_id;
  fetched_at = at;
  http_status = some f.http_status;
  outcome = outcome;
  raw_sha256 = f.raw_sha256;
  warc_file = f.warc_file;
  warc_record_id = n.warc_record_id;
  etag = f.etag;
  last_modified = f.last_modified;
  error_code = none;
}

-- the capture of a list that is too short
abbrev short_capture : NewPost → Fetched → ℕ → ℕ → Capture
short_capture n f at post_id = record (post_capture n f at post_id parse_failed) {
  etag = none;
  last_modified = none;
  error_code = some "incomplete_comments";
}

unfoldable pub keep_body :
    Store → NewPost → Fetched → ℕ → Post → Lease → ℕ → Result (StoreResult × Store)
keep_body s n f at p lease version = do
  let added = add_capture s (short_capture n f at p.id)
  a ← retry_capped s.archive lease "incomplete_comments" f.captured_at
  ok (
    record { post_id = p.id; version_id = version; capture_id = added.0; changed = false },
    record added.1 { archive = a },
  )

abbrev same : Option String → Option String → Bool
same none none = true
same (some a) b = is_text b a
same a b = false

abbrev same_flag : Bool → Bool → Bool
same_flag true b = b
same_flag false b = not b

-- `projection_changed`
unfoldable pub is_projected : NewPost → Option String → Option Post → Bool
is_projected n time none = false
is_projected n time (some p) =
    str_eq p.canonical_url n.canonical_url
    && (str_eq p.title n.title
        && (same p.author (coalesce n.author p.author)
            && (same p.category (coalesce n.category p.category)
                && (same p.created_at_source (coalesce time p.created_at_source)
                    && (same p.created_at_raw (coalesce n.created_at_raw p.created_at_raw)
                        && (p.comment_count == length n.comments && same_flag p.is_aa n.is_aa))))))

-- `ON CONFLICT (board_id, external_post_id) DO UPDATE SET ...`
abbrev pub project : NewPost → Option String → ℕ → Post → Post
project n time at p = record p {
  canonical_url = n.canonical_url;
  title = n.title;
  author = coalesce n.author p.author;
  category = coalesce n.category p.category;
  created_at_source = coalesce time p.created_at_source;
  created_at_raw = coalesce n.created_at_raw p.created_at_raw;
  last_seen_at = at;
  last_collected_at = some at;
  availability = "available";
  views = max n.views p.views;
  comment_count = length n.comments;
  is_aa = n.is_aa;
}

abbrev pub new_post : NewPost → Option String → ℕ → ℕ → Post
new_post n time at id = record {
  id = id;
  board_id = n.board_id;
  external_post_id = n.external_post_id;
  canonical_url = n.canonical_url;
  title = n.title;
  author = n.author;
  category = n.category;
  created_at_source = time;
  created_at_raw = n.created_at_raw;
  first_seen_at = at;
  last_seen_at = at;
  views = n.views;
  comment_count = length n.comments;
  is_aa = n.is_aa;
  latest_version_id = none;
  availability = "available";
  last_collected_at = some at;
}

unfoldable pub upsert : NewPost → Option String → ℕ → List Post → List Post
upsert n time at posts =
    if any (key_of n) posts
    then update_where (key_of n) (project n time at) posts
    else posts ++ new_post n time at (suc (max_id posts)) ∷ []

-- another post has the URL, which is UNIQUE
abbrev pub clashes : NewPost → Post → Bool
clashes n p = str_eq p.canonical_url n.canonical_url && not (key_of n p)

abbrev pub version_of : ℕ → NewPost → Version → Bool
version_of post_id n v =
    v.post_id == post_id
    && (str_eq v.content_sha256 n.content_sha256 && str_eq v.comments_sha256 n.comments_sha256)

abbrev pub max_version : List Version → ℕ
max_version [] = 0
max_version (v ∷ vs) = max v.id (max_version vs)

abbrev pub new_version : Tools → NewPost → Fetched → ℕ → ℕ → ℕ → Version
new_version tools n f at post_id id = record {
  id = id;
  post_id = post_id;
  content_sha256 = n.content_sha256;
  raw_sha256 = f.raw_sha256;
  parser_version = f.parser_version;
  body_html_zstd = tools.compress n.body_html;
  body_text_zstd = tools.compress n.body_text;
  comments_sha256 = n.comments_sha256;
  captured_at = at;
  warc_record_id = n.warc_record_id;
}

-- the version's id, and the versions with it
abbrev pub versions_for :
    Tools → NewPost → Fetched → ℕ → ℕ → List Version → Option Version → ℕ × List Version
versions_for tools n f at post_id versions (some v) = (v.id, versions)
versions_for tools n f at post_id versions none =
    let id = suc (max_version versions) in
    (id, versions ++ new_version tools n f at post_id id ∷ [])

unfoldable pub add_version : Tools → NewPost → Fetched → ℕ → ℕ → List Version → ℕ × List Version
add_version tools n f at post_id versions =
    versions_for tools n f at post_id versions (find (version_of post_id n) versions)

abbrev pub is_version : Option ℕ → ℕ → Bool
is_version none version = false
is_version (some v) version = v == version

abbrev pub is_latest : Option Post → ℕ → Bool
is_latest none version = false
is_latest (some p) version = is_version p.latest_version_id version
