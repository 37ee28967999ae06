-- ===== src/Store/Captures.antt =====
-- The captures of crawler/store.py: `record_listing`, `record_outcome`, `record_unmodified_post`,
-- `find_warc_capture`, and the page checkpoint of an inventory.
use re_dstm.Prelude.{
  ℕ, String, Bool, true, false, not, ◌&&◌, Option, none, some, List, [], ◌∷◌, Result, ok, err,
  value_error, raise_if, ◌>>=◌, ◌>>◌, ltb, ◌==◌, str_eq, is_text, is_some, if◌then◌else◌, any, find,
  update_where,
}
use re_dstm.Frontier.Table.{State, done, Board, Post, Archive, post_at}
use re_dstm.Frontier.Clock.{DateTime}
use re_dstm.Frontier.Lease.{Lease, complete_lease}
use re_dstm.Frontier.Outcome.{settle}
use re_dstm.Store.Tables.{
  listing, post, Outcome, stored, unmodified, restricted, missing, fetch_failed, Capture, Store,
  is_post, stamp, require_running_run, add_capture,
}

-- the WARC record of a response, and the text's hash
pub record Evidence : Type 0 where
  pub raw_sha256 : Option String
  pub warc_file : Option String
  pub warc_record_id : Option String

-- SQL's `column = ?`, where NULL on either side is no match
abbrev same_text : Option String → Option String → Bool
same_text a none = false
same_text a (some t) = is_text a t

abbrev in_warc : Capture → Bool
in_warc c = is_some c.warc_file && is_some c.warc_record_id

abbrev is_kept : Outcome → Bool
is_kept stored = true
is_kept unmodified = true
is_kept _ = false

-- the rows that the lookup of `record_listing` sees
abbrev same_listing : Option String → String → Capture → Bool
same_listing sha url c =
    same_text c.raw_sha256 sha
    && (str_eq c.url url && (in_warc c && (not (is_post c.entity) && is_kept c.outcome)))

abbrev listing_outcome : Option String → Bool → Outcome
listing_outcome (some code) seen = fetch_failed
listing_outcome none seen = if seen then unmodified else stored

unfoldable pub record_listing :
    Store → String → String → DateTime → ℕ → Evidence → Option String → Result (ℕ × Store)
record_listing s run_id url fetched_at http_status evidence error_code = do
  at ← stamp fetched_at
  require_running_run s.runs run_id
  let seen = any (same_listing evidence.raw_sha256 url) s.captures
  ok (
      add_capture s (record {
        id = 0;
        run_id = run_id;
        url = url;
        entity = listing;
        post_id = none;
        fetched_at = at;
        http_status = some http_status;
        outcome = listing_outcome error_code seen;
        raw_sha256 = evidence.raw_sha256;
        warc_file = evidence.warc_file;
        warc_record_id = evidence.warc_record_id;
        etag = none;
        last_modified = none;
        error_code = error_code;
      }))

-- the WHERE of `find_warc_capture`
abbrev pub warc_at : String → String → Capture → Bool
warc_at sha url c = is_text c.raw_sha256 sha && (str_eq c.url url && in_warc c)

-- the last that passes, `ORDER BY id DESC LIMIT 1`
abbrev last_of : Capture → Option Capture → (Capture → Bool) → Option Capture
last_of c (some d) p = some d
last_of c none p = if p c then some c else none

unfoldable pub find_last : (Capture → Bool) → List Capture → Option Capture
find_last p [] = none
find_last p (c ∷ cs) = last_of c (find_last p cs) p

abbrev pub warc_names : Option Capture → Option (Option String × Option String)
warc_names none = none
warc_names (some c) = some (c.warc_file, c.warc_record_id)

unfoldable pub find_warc_capture : Store → String → String → Option (Option String × Option String)
find_warc_capture s sha url = warc_names (find_last (warc_at sha url) s.captures)

-- `error_code = 'not_found'` of the same URL in another run
abbrev pub not_found_before : String → String → Capture → Bool
not_found_before run_id url c =
    is_post c.entity
    && (str_eq c.url url && (is_text c.error_code "not_found" && not (str_eq c.run_id run_id)))

-- A second run that does not find a post takes it for missing.
abbrev is_second_miss : Store → String → String → Option String → Bool
is_second_miss s run_id url error_code =
    is_text error_code "not_found" && any (not_found_before run_id url) s.captures

abbrev pub found_post : Store → Option (String × ℕ) → Option Post
found_post s none = none
found_post s (some (b, i)) = find (post_at b i) s.archive.posts

-- `{"restricted": "restricted", "missing": "missing"}.get(outcome)`
abbrev availability : Outcome → Option String
availability restricted = some "restricted"
availability missing = some "missing"
availability _ = none

abbrev post_id : Option Post → Option ℕ
post_id none = none
post_id (some p) = some p.id

abbrev has_post_id : ℕ → Post → Bool
has_post_id id p = p.id == id

abbrev mark_post : String → ℕ → Post → Post
mark_post word at p = record p { availability = word; last_collected_at = some at }

abbrev mark_posts : Option Post → Option String → ℕ → List Post → List Post
mark_posts (some p) (some word) at posts = update_where (has_post_id p.id) (mark_post word at) posts
mark_posts _ _ at posts = posts

abbrev settle_lease :
    Archive → Option Lease → State → Option String → DateTime → Option DateTime → Result Archive
settle_lease a none state code fetched_at retry_after_at = ok a
settle_lease a (some lease) state code fetched_at retry_after_at =
    settle a lease state code fetched_at retry_after_at

abbrev is_naive : Option DateTime → Bool
is_naive none = false
is_naive (some t) = not t.aware

unfoldable pub record_outcome :
    Store
    → String
    → String
    → Outcome
    → DateTime
    → Option ℕ
    → Option (String × ℕ)
    → Option String
    → Evidence
    → Option Lease
    → State
    → Option DateTime
    → Result (ℕ × Store)
record_outcome s run_id url outcome fetched_at http_status ref error_code evidence lease state
      retry_after_at =
    do
      at ← stamp fetched_at
      raise_if (is_naive retry_after_at) (value_error "retry_after_at must be timezone-aware")
      require_running_run s.runs run_id
      let second = is_second_miss s run_id url error_code
      let result = if second then missing else outcome
      let ending = if second then done else state
      let p = found_post s ref
      let a = record s.archive { posts = mark_posts p (availability result) at s.archive.posts }
      let added =
          add_capture (record s { archive = a })
            (record {
              id = 0;
              run_id = run_id;
              url = url;
              entity = post;
              post_id = post_id p;
              fetched_at = at;
              http_status = http_status;
              outcome = result;
              raw_sha256 = evidence.raw_sha256;
              warc_file = evidence.warc_file;
              warc_record_id = evidence.warc_record_id;
              etag = none;
              last_modified = none;
              error_code = error_code;
            })
      b ← settle_lease a lease ending error_code fetched_at retry_after_at
      ok (added.0, record added.1 { archive = b })

abbrev with_url : String → Post → Bool
with_url url p = str_eq p.canonical_url url

abbrev refresh_post : ℕ → Post → Post
refresh_post at p = record p { last_seen_at = at; last_collected_at = some at }

abbrev complete_if : Archive → Option Lease → Result Archive
complete_if a none = ok a
complete_if a (some lease) = complete_lease a lease none

abbrev unmodified_capture : String → String → ℕ → ℕ → Post → Capture
unmodified_capture run_id url at http_status p = record {
  id = 0;
  run_id = run_id;
  url = url;
  entity = post;
  post_id = some p.id;
  fetched_at = at;
  http_status = some http_status;
  outcome = unmodified;
  raw_sha256 = none;
  warc_file = none;
  warc_record_id = none;
  etag = none;
  last_modified = none;
  error_code = none;
}

-- The rest of `record_unmodified_post`, for the post of the URL.
unfoldable pub confirm_post :
    Store → String → String → ℕ → ℕ → Option Lease → Option Post → Result (ℕ × Store)
confirm_post s run_id url at http_status lease none =
    err (value_error "a 304 conditional hit requires a stored post")
confirm_post s run_id url at http_status lease (some p) = do
  let posts = update_where (has_post_id p.id) (refresh_post at) s.archive.posts
  let a = record s.archive { posts = posts }
  let added =
      add_capture (record s { archive = a }) (unmodified_capture run_id url at http_status p)
  b ← complete_if a lease
  ok (added.0, record added.1 { archive = b })

unfoldable pub record_unmodified_post :
    Store → String → String → DateTime → ℕ → Option Lease → Result (ℕ × Store)
unfolding confirm_post
record_unmodified_post s run_id url captured_at http_status lease = do
  raise_if (not (http_status == 304)) (value_error "unmodified capture requires a 304 status")
  at ← stamp captured_at
  require_running_run s.runs run_id
  confirm_post s run_id url at http_status lease (find (with_url url) s.archive.posts)

abbrev checkpoint : ℕ → ℕ → Board → Board
checkpoint next_page now b = record b {
  inventory_next_page = next_page;
  last_inventory_at = some now;
}

-- `now` is the database's clock, in seconds.
unfoldable pub checkpoint_inventory_page : Store → String → ℕ → ℕ → Result Store
checkpoint_inventory_page s board_id next_page now = do
  raise_if (ltb next_page 1) (value_error "inventory next_page must be >= 1")
  ok (record s {
    archive = record s.archive {
      boards =
          update_where (λ (b : Board). str_eq b.board_id board_id) (checkpoint next_page now)
            s.archive.boards;
    };
  })
