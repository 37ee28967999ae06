-- ===== src/Frontier/Seed.antt =====
-- `seed` and `listing_is_unchanged` of crawler/frontier.py.
use re_dstm.Prelude.{
  ℕ, ◌+◌, ◌*◌, max, String, Bool, true, false, not, ◌&&◌, ◌||◌, Option, none, some, List, [], ◌∷◌,
  ◌++◌, Result, ok, value_error, integrity_error, raise_if, ◌>>◌, ◌==◌, ltb, str_eq, text_in,
  is_text, is_some, is_none, coalesce, if◌then◌else◌, any, find, update_where, ℤ,
}
use re_dstm.Frontier.Table.{
  pending, done, Row, Post, Archive, is_done, is_dead, at, post_at, with_frontier,
}
use re_dstm.Frontier.Clock.{micros_per_second}
use re_dstm.Frontier.Lease.{is_bad_count, as_count}

-- REDSTM_CAPPED_RETRY_ERROR_CODES
abbrev pub capped_codes : List String
capped_codes = "incomplete_comments" ∷ "parse_drift" ∷ "storage_error" ∷ []

-- REDSTM_ORIGIN_UNRESPONSIVE_CODE
abbrev pub origin_unresponsive : String
origin_unresponsive = "origin_unresponsive"

-- `retry_codes` of `seed`
abbrev pub retry_codes : List String
retry_codes = origin_unresponsive ∷ capped_codes

abbrev pub code_in : Option String → List String → Bool
code_in none codes = false
code_in (some c) codes = text_in c codes

-- `a IS NOT NULL AND b != a`, where `b != a` is no match if `b` is NULL
abbrev pub changed_from : Option String → Option String → Bool
changed_from (some a) (some b) = not (str_eq b a)
changed_from _ _ = false

-- the WHEN of the four CASEs
unfoldable pub reopens : Bool → Option String → Row → Bool
reopens reopen_done sha r =
    (reopen_done && is_done r.state)
    || (is_dead r.state
        && (code_in r.last_error_code retry_codes && changed_from r.listing_sha256 sha))

-- `ON CONFLICT (board_id, external_post_id) DO UPDATE SET ...`
unfoldable pub refresh : String → ℤ → Option ℕ → Bool → Option String → Row → Row
unfolding reopens
refresh url priority expected reopen_done sha r =
    let fresh = reopens reopen_done sha r in
    record r {
      url = url;
      priority = priority;
      expected_comment_count = expected;
      state = if fresh then pending else r.state;
      attempts = if fresh then 0 else r.attempts;
      next_attempt_at = if fresh then none else r.next_attempt_at;
      last_error_code = if fresh then none else r.last_error_code;
      listing_sha256 = coalesce sha r.listing_sha256;
    }

abbrev pub max_rowid : List Row → ℕ
max_rowid [] = 0
max_rowid (r ∷ rs) = max r.rowid (max_rowid rs)

abbrev pub new_row : ℕ → String → ℕ → String → ℤ → Option ℕ → Bool → Option String → Row
new_row rowid b i url priority expected captured sha = record {
  rowid = rowid;
  board_id = b;
  external_post_id = i;
  url = url;
  priority = priority;
  state = if captured then done else pending;
  attempts = 0;
  next_attempt_at = none;
  last_error_code = none;
  last_attempt_at = none;
  lease_token = none;
  lease_expires_at = none;
  expected_comment_count = expected;
  listing_sha256 = sha;
}

-- A post number 0 breaks the table's CHECK. A hash of any length is taken.
unfoldable pub seed :
    Archive → String → ℕ → String → ℤ → Bool → Option ℤ → Bool → Option String → Result Archive
unfolding refresh
seed a b i url priority reopen_done expected captured sha = do
  raise_if (is_bad_count expected)
      (value_error "expected_comment_count must be a non-negative integer or None")
  raise_if (i == 0) (integrity_error "CHECK constraint failed: external_post_id > 0")
  ok (
      with_frontier a (
        if any (at b i) a.frontier
        then update_where (at b i) (refresh url priority (as_count expected) reopen_done sha)
            a.frontier
        else a.frontier
          ++ new_row (max_rowid a.frontier + 1) b i url priority (as_count expected) captured sha
            ∷ []))

-- REDSTM_LOCKED_REVISIT_DAYS
abbrev pub locked_revisit_days : ℕ
locked_revisit_days = 30

-- A restricted post that was tried less than the revisit window ago. A time of the last attempt
-- that lies ahead of the clock is recent too.
unfoldable pub locked_recently : Post → Option ℕ → ℕ → Bool
locked_recently p none now = false
locked_recently p (some attempted) now =
    str_eq p.availability "restricted"
    && ltb now ((attempted + locked_revisit_days * 24 * 60 * 60) * micros_per_second)

abbrev pub no_hash_yet : Row → Bool
no_hash_yet r = is_dead r.state && is_none r.listing_sha256

abbrev pub set_hash : String → Row → Row
set_hash sha r = record r { listing_sha256 = some sha }

abbrev pub row_hash : Option Row → Option String
row_hash none = none
row_hash (some r) = r.listing_sha256

abbrev pub row_attempted : Option Row → Option ℕ
row_attempted none = none
row_attempted (some r) = r.last_attempt_at

-- `category is None or row["category"] == category`
abbrev pub same_category : Option String → Option String → Bool
same_category none stored = true
same_category (some c) stored = is_text stored c

-- `listing_fingerprint` is `hashlib.sha256` of a JSON text: a parameter.
module _ (fingerprint : String → Option String → ℕ → String) where
  unfoldable pub same_listing : Post → Option String → String → Option String → ℕ → Bool
  same_listing p (some sha) title category comments =
      str_eq sha (fingerprint title category comments)
  same_listing p none title category comments =
      str_eq p.title title && (same_category category p.category && p.comment_count == comments)

  -- the `return bool(...)`, for a post row and its frontier row in a LEFT JOIN
  unfoldable pub unchanged_row : Post → Option Row → String → Option String → ℕ → ℕ → Bool
  unfolding same_listing locked_recently
  unchanged_row p r title category comments now =
      (is_some p.latest_version_id || locked_recently p (row_attempted r) now)
      && (p.comment_count == comments && same_listing p (row_hash r) title category comments)

  -- An old dead row gets a fingerprint of what was last observed as its baseline.
  unfoldable pub backfill_hash : Archive → String → ℕ → Post → Archive
  backfill_hash a b i p = with_frontier a (
      update_where (λ r. at b i r && no_hash_yet r)
        (set_hash (fingerprint p.title p.category p.comment_count)) a.frontier)

  -- The answer, and the archive with the baseline. `now` is in microseconds.
  unfoldable pub listing_is_unchanged :
      Archive → String → ℕ → String → Option String → ℕ → ℕ → Bool × Archive
  unfolding unchanged_row backfill_hash
  listing_is_unchanged a b i title category comments now = elim (find (post_at b i) a.posts) [
    | none ↦ (false, a)
    | some p ↦
        let r = find (at b i) a.frontier in
        (
          unchanged_row p r title category comments now,
          if is_none (row_hash r) then backfill_hash a b i p else a,
        )
  ]
