-- ===== src/Store/Tables.antt =====
-- The tables `crawl_runs`, `captures`, `post_versions` and `comments` (crawler/archive.py), beside the archive's frontier, boards
-- and posts, and the check that a run is running.
use re_dstm.Prelude.{
  any, not, ℕ, suc, max, ◌/◌, String, Bool, true, false, Option, none, some, List, [], ◌∷◌, ◌++◌,
  Result, ok, err, value_error, str_eq, find, if◌then◌else◌,
}
use re_dstm.Frontier.Table.{Archive, Board}
use re_dstm.Frontier.Clock.{DateTime, micros_per_second}

pub data RunStatus : Type 0 where
  running succeeded partial failed interrupted : RunStatus

pub record Run : Type 0 where
  pub run_id : String
  pub kind : String
  pub status : RunStatus
  pub started_at : ℕ
  pub finished_at : Option ℕ
  pub discovered : ℕ
  pub fetched : ℕ
  pub changed : ℕ
  pub unchanged : ℕ
  pub failures : ℕ
  pub summary_json : String

pub data Entity : Type 0 where
  listing post : Entity

pub data Outcome : Type 0 where
  stored unmodified restricted missing parse_failed fetch_failed : Outcome

pub record Capture : Type 0 where
  pub id : ℕ
  pub run_id : String
  pub url : String
  pub entity : Entity
  pub post_id : Option ℕ
  pub fetched_at : ℕ
  pub http_status : Option ℕ
  pub outcome : Outcome
  pub raw_sha256 : Option String
  pub warc_file : Option String
  pub warc_record_id : Option String
  pub etag : Option String
  pub last_modified : Option String
  pub error_code : Option String

-- `post_versions`, with the bodies as they are compressed
pub record Version : Type 0 where
  pub id : ℕ
  pub post_id : ℕ
  pub content_sha256 : String
  pub raw_sha256 : Option String
  pub parser_version : String
  pub body_html_zstd : String
  pub body_text_zstd : String
  pub comments_sha256 : String
  pub captured_at : ℕ
  pub warc_record_id : Option String

pub record Comment : Type 0 where
  pub post_id : ℕ
  pub position : ℕ
  pub source_comment_id : Option String
  pub author : Option String
  pub content_html : String
  pub content_text : String
  pub created_at_source : Option String
  pub created_at_raw : Option String
  pub parent_position : Option ℕ
  pub depth : ℕ

-- The captures stand in the order of their ids.
pub record Store : Type 0 where
  pub archive : Archive
  pub runs : List Run
  pub captures : List Capture
  pub versions : List Version
  pub comments : List Comment

abbrev pub is_running : RunStatus → Bool
is_running running = true
is_running _ = false

-- ended by `finish_run`
abbrev pub is_finished : RunStatus → Bool
is_finished running = false
is_finished interrupted = false
is_finished _ = true

abbrev pub is_post : Entity → Bool
is_post post = true
is_post listing = false

abbrev pub run_at : String → Run → Bool
run_at id r = str_eq r.run_id id

-- the foreign key of `posts` on `boards` fails
unfoldable pub is_orphan : List Board → String → Bool
is_orphan boards id = not (any (λ (b : Board). str_eq b.board_id id) boards)

-- `_timestamp` of crawler/store.py
unfoldable pub stamp : DateTime → Result ℕ
stamp value =
    if value.aware
    then ok (value.micros / micros_per_second)
    else err (value_error "archive timestamps must be timezone-aware")

abbrev pub status_of : Option Run → Bool
status_of none = false
status_of (some r) = is_running r.status

-- `_require_running_run`
unfoldable pub require_running_run : List Run → String → Result (Unit {0})
require_running_run runs id =
    if status_of (find (run_at id) runs)
    then ok tt
    else err (value_error "crawl run is missing or not running")

abbrev max_capture : List Capture → ℕ
max_capture [] = 0
max_capture (c ∷ cs) = max c.id (max_capture cs)

-- `INSERT INTO captures`, which gives the row the next id
unfoldable pub add_capture : Store → Capture → ℕ × Store
add_capture s c =
    let id = suc (max_capture s.captures) in
    (id, record s { captures = s.captures ++ record c { id = id } ∷ [] })
