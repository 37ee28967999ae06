-- ===== src/Frontier/Tests.antt =====
-- Runs of the frontier on concrete tables.
use re_dstm.Prelude.{
  ℕ, ◌*◌, min, String, ◌≡◌, refl, true, false, Option, none, some, List, [], ◌∷◌, map, pos, find,
  count, length, All, ok, arith, update_where, raise_if, ◌>>=◌,
}
use re_dstm.Frontier.Table.{
  pending, running, retry, done, dead, Row, Post, Archive, row_check, at, enabled,
}
use re_dstm.Frontier.Clock.{
  DateTime, timestamp, optional_timestamp, after, retry_backoff, backoff_delay,
}
use re_dstm.Frontier.Lease.{Lease, complete_lease, transition_lease}
use re_dstm.Frontier.Invariant.{IsWellFormed}
use re_dstm.Frontier.Seed.{
  seed, refresh, reopens, listing_is_unchanged, unchanged_row, same_listing,
}
use re_dstm.Frontier.Claim.{claim_identity, claim}
use re_dstm.Frontier.Requeue.{key_of, is_selected, requeue_stale_details}
use re_dstm.Frontier.Revisiting.{awaits_revisit, IsRevisited, requeue_stale_details-exact}
use re_dstm.Frontier.Recovery.{recovery_candidates, is_candidate}
use re_dstm.Frontier.Outcome.{settle}
use re_dstm.Frontier.Ops.{Op, seed_post, claim_post, claim_batch, recover, end_lease, steps}
use re_dstm.Frontier.Ops.WellFormed.{steps-IsWellFormed}
use re_dstm.Frontier.Ops.Held.{Before, lease_exclusive}
use re_dstm.Frontier.Ops.Exclusive.{IsHeld}
use re_dstm.Frontier.Claiming.{claim_identity-exact}
use re_dstm.Frontier.Effects.{IsLeaseFor, IsLeased, IsLocal}
use re_dstm.Frontier.Lifecycle.{Leaves, complete_lease-exact, transition_lease-exact}
use re_dstm.Frontier.Retries.{retry_backoff-exact, settle-exact}
use re_dstm.Frontier.Batch.{Granted, claim-exact}
use re_dstm.Frontier.Seeding.{seed-twice}
use re_dstm.Frontier.Recovering.{IsWork, IsReopened, recovery_candidates-exact}

abbrev new_post : ℕ → Row
new_post i = record {
  rowid = i;
  board_id = "ss_19";
  external_post_id = i;
  url = "https://example.org";
  priority = pos 0;
  state = pending;
  attempts = 0;
  next_attempt_at = none;
  last_error_code = none;
  last_attempt_at = none;
  lease_token = none;
  lease_expires_at = none;
  expected_comment_count = some 2;
  listing_sha256 = none;
}

abbrev leased_post : Row
leased_post = record (new_post 7) {
  state = running;
  attempts = 1;
  lease_token = some "a";
  lease_expires_at = some 2000;
}

abbrev failed_post : Row
failed_post = record (new_post 9) {
  state = dead;
  attempts = 3;
  last_error_code = some "network_error";
}

abbrev table : Archive
table = record {
  frontier = new_post 5 ∷ leased_post ∷ failed_post ∷ [];
  boards =
      record {
        board_id = "ss_19";
        group_name = some "creation";
        is_enabled = true;
        inventory_next_page = 1;
        last_inventory_at = none;
      }
      ∷ [];
  posts = [];
}

abbrev clock : DateTime
clock = record { aware = true; micros = 1000 * 1000000 }

abbrev lease : Lease
lease = record {
  board_id = "ss_19";
  external_post_id = 7;
  url = "https://example.org";
  attempts = 1;
  lease_token = "a";
  lease_expires_at = record { aware = true; micros = 2000 * 1000000 };
  expected_comment_count = some 2;
}

abbrev other_lease : Lease
other_lease = record lease { lease_token = "b" }

abbrev no_fingerprint : String → Option String → ℕ → String
no_fingerprint title category comments = title

abbrev captured : Post
captured = record {
  id = 1;
  board_id = "ss_19";
  external_post_id = 5;
  canonical_url = "https://example.org";
  title = "one";
  author = none;
  created_at_source = none;
  created_at_raw = none;
  first_seen_at = 0;
  last_seen_at = 0;
  category = none;
  views = 0;
  comment_count = 2;
  is_aa = false;
  latest_version_id = some 1;
  availability = "available";
  last_collected_at = none;
}

abbrev known : Archive
known = record table { posts = captured ∷ [] }

table-IsWellFormed : IsWellFormed table.frontier
unfolding row_check
table-IsWellFormed = record {
  valid = (refl, (refl, (refl, tt)));
  unique = ((refl, (refl, tt)), ((refl, tt), (tt, tt)));
}

leased : IsHeld "ss_19" 7 "a" 2000 table.frontier
unfolding find
leased = record {
  row = leased_post;
  found = refl;
  holds = record { runs = refl; token_is = refl; expires_is = refl };
}

clock-seconds : timestamp clock ≡ ok 1000
unfolding timestamp
clock-seconds = refl

abbrev calls : List Op
calls =
    seed_post "ss_19" 11 "https://example.org" (pos 3) false none false none
    ∷ claim_batch 2 600 clock "b"
    ∷ end_lease other_lease done none none
    ∷ claim_post "ss_19" 7 600 clock "c"
    ∷ recover 5 clock none false
    ∷ []

steps-IsWellFormed_example : IsWellFormed (steps no_fingerprint table calls).frontier
steps-IsWellFormed_example = steps-IsWellFormed no_fingerprint calls table table-IsWellFormed

clock-Before : Before 2000 clock
unfolding timestamp
clock-Before t e = let same : 1000 ≡ t = cc in omega (arith, same)

lease_exclusive_example : IsHeld "ss_19" 7 "a" 2000 (steps no_fingerprint table calls).frontier
unfolding timestamp
lease_exclusive_example =
    lease_exclusive "ss_19" 7 "a" 2000 no_fingerprint calls table table-IsWellFormed leased
      (tt, (clock-Before, (refl, (clock-Before, (clock-Before, tt)))))

claim_identity-exact_example :
    (new_lease : Lease) × (a' : Archive) × (r' : Row) × (claim_identity table "ss_19" 5 600 clock
        "b"
      ≡ ok (some new_lease, a'))
    × IsLeaseFor (after clock 600) "b" (new_post 5) new_lease
    × (find (at "ss_19" 5) a'.frontier ≡ some r')
    × IsLeased 1000 1600 "b" (new_post 5) r'
    × IsLocal "ss_19" 5 table a'
unfolding find enabled
claim_identity-exact_example =
    (claim_identity-exact table "ss_19" 5 600 clock "b" 1000 table-IsWellFormed.unique (new_post 5)
        refl refl clock-seconds).0
      refl

claim-exact_example :
    (given : List Lease) × (a' : Archive) × (claim table 2 600 clock "b" ≡ ok (given, a'))
    × (length given ≡ 1)
    × All (Granted table 2 600 clock "b" 1000 a') given
unfolding enabled
claim-exact_example = claim-exact table 2 600 clock "b" 1000 refl clock-seconds

complete_lease-exact_example :
    Leaves
      (complete_lease table lease (some (pos 4)))
      table
      lease
      done
      none
      none
      (some 4)
      leased_post
unfolding find
complete_lease-exact_example =
    (complete_lease-exact table lease (some (pos 4)) table-IsWellFormed refl).0 leased_post refl
      refl refl

transition_lease-exact_example :
    Leaves
      (transition_lease table lease retry (some "parse_drift") (some clock))
      table
      lease
      retry
      (some 1000)
      (some "parse_drift")
      (some 2)
      leased_post
unfolding find optional_timestamp timestamp ◌>>=◌
transition_lease-exact_example =
    (transition_lease-exact table lease retry (some "parse_drift") (some clock) (some 1000)
        table-IsWellFormed refl refl).0
      leased_post refl refl refl

retry_backoff-exact_example : retry_backoff 3 clock ≡ ok (after clock (backoff_delay 3))
retry_backoff-exact_example = (retry_backoff-exact 2 clock).1

abbrev last_try : Lease
last_try = record lease { attempts = 24 }

settle-exact_example :
    Leaves
      (settle table last_try retry (some "network_error") clock none)
      table
      last_try
      dead
      none
      (some "origin_unresponsive")
      (some 2)
      leased_post
unfolding find
settle-exact_example =
    (settle-exact table last_try (some "network_error") clock none leased_post table-IsWellFormed
        refl refl refl (omega arith)).1
      refl (omega arith)

seed-twice_example :
    seed
      (record table {
        frontier =
            record (new_post 5) {
              url = "https://example.net";
              priority = pos 3;
              expected_comment_count = none;
            }
            ∷ leased_post
            ∷ failed_post
            ∷ [];
      })
      "ss_19"
      5
      "https://example.net"
      (pos 3)
      false
      none
      false
      none
    ≡ ok (record table {
      frontier =
          record (new_post 5) {
            url = "https://example.net";
            priority = pos 3;
            expected_comment_count = none;
          }
          ∷ leased_post
          ∷ failed_post
          ∷ [];
    })
unfolding seed refresh reopens update_where raise_if ◌>>=◌
seed-twice_example = seed-twice "ss_19" 5 "https://example.net" (pos 3) none false none table _ refl

recovery_candidates-exact_example :
    (chosen : List Row) × (a' : Archive) × (recovery_candidates table 5 clock none true
      ≡ ok (map key_of chosen, a'))
    × (length chosen
        ≡ min 5 (count (is_candidate table.boards table.posts 1000 none true) a'.frontier))
    × All (IsWork table 1000 none true) chosen
    × All (IsReopened table 1000 none true) a'.frontier
recovery_candidates-exact_example =
    recovery_candidates-exact table 1000 none true 5 clock refl clock-seconds

-- A listing row of a known post with a body counts as unchanged.
unchanged_known : (listing_is_unchanged no_fingerprint known "ss_19" 5 "one" none 2 0).0 ≡ true
unfolding listing_is_unchanged unchanged_row same_listing find
unchanged_known = refl

abbrev old_post : Row
old_post = record (new_post 6) { state = done; attempts = 1; last_attempt_at = some 10 }

abbrev old_table : Archive
old_table = record table { frontier = new_post 5 ∷ old_post ∷ [] }

requeue_stale_details-exact_example :
    (chosen : List Row) × (a' : Archive) × (requeue_stale_details old_table 3 clock none
      ≡ ok (map key_of chosen, a'))
    × (length chosen ≡ min 3 (count (awaits_revisit old_table 1000 none) old_table.frontier))
    × All (IsRevisited old_table 3 1000 none a') chosen
    × ((b : String) (i : ℕ) (s : Row)
        → find (at b i) old_table.frontier ≡ some s
        → is_selected chosen s ≡ false
        → find (at b i) a'.frontier ≡ some s)
requeue_stale_details-exact_example =
    requeue_stale_details-exact old_table 3 1000 none clock ((refl, tt), (tt, tt)) refl
      clock-seconds
