-- ===== src/Recover/Batch.antt =====
-- `_recovery_batch` of scripts/recover_queue.py, and the choice of posts in `run_recovery`.
use re_dstm.Prelude.{
  ℕ, ◌-◌, ◌*◌, min, max, String, Bool, true, false, not, ◌&&◌, Option, List, [], ◌++◌, Result, ok,
  ◌>>=◌, ◌==◌, if◌then◌else◌, length, take,
}
use re_dstm.Frontier.Table.{Archive}
use re_dstm.Frontier.Clock.{DateTime, micros_per_second}
use re_dstm.Frontier.Requeue.{
  Key, requeue_full_content, requeue_stale_details, requeue_dead, revive_missing_dead,
}
use re_dstm.Frontier.Recovery.{recovery_candidates}

-- REDSTM_STALE_DETAIL_RESERVED_POSTS
abbrev pub stale_detail_reserved_posts : ℕ
stale_detail_reserved_posts = 1

-- REDSTM_STALE_DETAIL_REVISIT_SECONDS
abbrev pub stale_detail_revisit_seconds : ℕ
stale_detail_revisit_seconds = 30 * 24 * 60 * 60

-- `selected_at - timedelta(seconds=...)`, for a time after the first 30 days of the epoch
abbrev pub stale_before : DateTime → DateTime
stale_before now = record now {
  micros = now.micros - stale_detail_revisit_seconds * micros_per_second;
}

-- `recovery_candidates` gives at most `limit` posts, so the difference is no negative number.
abbrev pub stale_limit : ℕ → ℕ → ℕ
stale_limit limit due = max (min stale_detail_reserved_posts limit) (limit - due)

unfoldable pub revisit : Archive → ℕ → DateTime → Option String → Bool → Result (List Key × Archive)
revisit a stale now board missing_only =
    if not (stale == 0) && not missing_only
    then requeue_stale_details a stale (stale_before now) board
    else ok ([], a)

abbrev pub chosen : ℕ → List Key → List Key → List Key
chosen limit due revisited = take (limit - length revisited) due ++ revisited

-- The batch, how many of it are revisits, and the archive.
unfoldable pub recovery_batch :
    Archive → ℕ → DateTime → Option String → Bool → Result ((List Key × ℕ) × Archive)
unfolding revisit
recovery_batch a limit now board missing_only = do
  found ← recovery_candidates a limit now board missing_only
  again ← revisit found.1 (stale_limit limit (length found.0)) now board missing_only
  ok ((chosen limit found.0 again.0, length again.0), again.1)

-- what the command line asks `run_recovery` for
pub data Request : Type 0 where
  full_content : (before : DateTime) (max_rowid : ℕ) → Request
  dead_code : (code : String) → Request
  due_posts : (missing_only revive_dead : Bool) → Request

-- the posts, the rows taken back from dead, the revisits, and the archive
pub record Selected : Type 0 where
  pub candidates : List Key
  pub requeued_dead : ℕ
  pub revisited_posts : ℕ
  pub archive : Archive

abbrev revived : Archive → Bool → Option String → ℕ × Archive
revived a revive board = if revive then revive_missing_dead a board else (0, a)

-- `now` is the clock that each operation of the frontier reads.
unfoldable pub select_posts :
    Archive → Bool → Request → ℕ → DateTime → Option String → Result Selected
unfolding recovery_batch
select_posts a true request limit now board =
    ok (record { candidates = []; requeued_dead = 0; revisited_posts = 0; archive = a })
select_posts a false (full_content before max_rowid) limit now board = do
  r ← requeue_full_content a limit max_rowid before board now
  ok (record { candidates = r.0; requeued_dead = 0; revisited_posts = 0; archive = r.1 })
select_posts a false (dead_code code) limit now board = do
  r ← requeue_dead a code limit board
  ok (record { candidates = r.0; requeued_dead = length r.0; revisited_posts = 0; archive = r.1 })
select_posts a false (due_posts missing_only revive_dead) limit now board = do
  let back = revived a (missing_only && revive_dead) board
  b ← recovery_batch back.1 limit now board missing_only
  ok (record { candidates = b.0.0; requeued_dead = back.0; revisited_posts = b.0.1; archive = b.1 })
