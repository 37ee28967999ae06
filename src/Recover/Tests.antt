-- ===== src/Recover/Tests.antt =====
-- Runs of the recovery on concrete tables and reports.
use re_dstm.Prelude.{ℕ, ◌*◌, ◌≡◌, refl, true, false, some, none, [], ◌∷◌, ok}
use re_dstm.Frontier.Table.{pending, done, Row, Archive}
use re_dstm.Prelude.{pos}
use re_dstm.Frontier.Clock.{DateTime, timestamp}
use re_dstm.Recover.Batch.{recovery_batch}
use re_dstm.Recover.Ready.{Batched, recovery_batch-exact}
use re_dstm.Recover.Report.{run, succeeded, recovery_status, run_status}

abbrev row : ℕ → Row
row i = record {
  rowid = i;
  board_id = "ss_19";
  external_post_id = i;
  url = "https://example.org";
  priority = pos 0;
  state = pending;
  attempts = 0;
  next_attempt_at = none;
  last_error_code = none;
  last_attempt_at = none;
  lease_token = none;
  lease_expires_at = none;
  expected_comment_count = none;
  listing_sha256 = none;
}

abbrev table : Archive
table = record {
  frontier = row 5 ∷ record (row 6) { state = done; last_attempt_at = some 10 } ∷ [];
  boards = [];
  posts = [];
}

abbrev clock : DateTime
clock = record { aware = true; micros = 10000000 * 1000000 }

clock-seconds : timestamp clock ≡ ok 10000000
unfolding timestamp
clock-seconds = refl

recovery_batch-exact_example : Batched clock 3 (recovery_batch table 3 clock none false)
recovery_batch-exact_example =
    recovery_batch-exact table 3 10000000 clock none false ((refl, tt), (tt, tt)) tt refl
      clock-seconds

-- A post that nobody may read does not spoil a recovery.
status_benign :
    recovery_status none false [] (("stored", 2) ∷ []) 2 ("password_protected" ∷ []) ≡ run succeeded
unfolding recovery_status run_status
status_benign = refl
