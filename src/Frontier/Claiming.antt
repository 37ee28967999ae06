-- ===== src/Frontier/Claiming.antt =====
-- What `claim_identity` answers and leaves, for every post that has a row.
use re_dstm.Prelude.{
  ℕ, ◌+◌, String, ◌≡◌, refl, ap, ◌∙◌, inl, inr, ◌⊎◌, Bool, Bool-cases, true, false, ◌&&◌, ◌||◌,
  none, some, List, arith, if◌then◌else◌, ok, ◌>>=◌, raise_if, ltb, due_by, find, map_row,
  update_row, update_where,
}
use re_dstm.Frontier.Table.{Archive, Row, Board, at, enabled, is_running, is_waiting}
use re_dstm.Frontier.Clock.{DateTime, timestamp, after}
use re_dstm.Frontier.Keys.{
  UniqueKeys, UniqueKeys-update_where, keep_row, find_at, find_at_and, find_at-update_where,
}
use re_dstm.Frontier.Claim.{
  is_expired, is_due, requeue, is_claimable, grant, expire_one, claims_one, lease_found, lease_of,
  claim_identity,
}
use re_dstm.Frontier.Lease.{Lease}
use re_dstm.Frontier.Effects.{SamePost, IsLeased, IsLeaseFor, IsLocal, find_other}

-- A post can be leased now: its board is not disabled, and it waits with no later retry time, or
-- the lease under which it runs has expired.
abbrev pub available : List Board → ℕ → Row → Bool
available boards now r =
    enabled boards r.board_id
    && ((is_waiting r.state && is_due now r)
        || (is_running r.state && due_by r.lease_expires_at now))

-- the row with which its new holder begins
abbrev pub granted : List Board → ℕ → String → ℕ → Row → Row
granted boards now token expires r =
    grant now token expires (update_row (is_expired boards now) (requeue now) r)

pub claimable_again :
    (boards : List Board) (now : ℕ) (r : Row)
    → is_claimable boards now (update_row (is_expired boards now) (requeue now) r)
      ≡ available boards now r
unfolding is_claimable is_expired
claimable_again boards now r = ground arith

expired_available :
    (boards : List Board) (now : ℕ) (r : Row)
    → available boards now r ≡ false
    → is_expired boards now r ≡ false
unfolding is_expired
expired_available boards now r h = ground arith

expired_runs :
    (boards : List Board) (now : ℕ) (r : Row)
    → is_expired boards now r ≡ true
    → is_running r.state ≡ true
unfolding is_expired
expired_runs boards now r h = ground arith

waits_available :
    (boards : List Board) (now : ℕ) (r : Row)
    → available boards now r ≡ true
    → is_expired boards now r ≡ false
    → is_running r.state ≡ false
unfolding is_expired
waits_available boards now r h n = ground arith

pub timestamp-after :
    (now : DateTime) (seconds t : ℕ)
    → timestamp now ≡ ok t
    → timestamp (after now seconds) ≡ ok (t + seconds)
unfolding timestamp
timestamp-after now seconds t e = ground arith

module _ (a : Archive) (b : String) (i seconds : ℕ) (now : DateTime) (token : String) (t : ℕ) where
  abbrev until : ℕ
  until = t + seconds

  abbrev rows : List Row
  rows = expire_one a.boards b i t a.frontier

  abbrev left : Archive
  left = record a { frontier = update_where (claims_one a.boards b i t) (grant t token until) rows }

  claim_identity-eq :
      ltb seconds 1 ≡ false
      → timestamp now ≡ ok t
      → claim_identity a b i seconds now token
        ≡ ok (
          lease_found token
              (after now seconds)
              (map_row (grant t token until) (find (claims_one a.boards b i t) rows)),
          left,
        )
  unfolding claim_identity ◌>>=◌ raise_if
  claim_identity-eq s e = rw s (rw e (rw (timestamp-after now seconds t e)))

  find-rows :
      (r : Row)
      → find (at b i) a.frontier ≡ some r
      → find (at b i) rows ≡ some (update_row (is_expired a.boards t) (requeue t) r)
  find-rows r e =
      find_at-update_where (requeue t) (record { board = λ r. refl; post = λ r. refl })
        (λ r. at b i r && is_expired a.boards t r) b i a.frontier
      ∙ ap (map_row (update_row (λ r. at b i r && is_expired a.boards t r) (requeue t))) e
      ∙ here (find_at b i a.frontier r e)
    where
      here :
          at b i r ≡ true
          → some (update_row (λ r. at b i r && is_expired a.boards t r) (requeue t) r)
            ≡ some (update_row (is_expired a.boards t) (requeue t) r)
      here k = rw k

  module _ (u : UniqueKeys a.frontier) (r : Row) (found : find (at b i) a.frontier ≡ some r) where
    claimed : find (claims_one a.boards b i t) rows ≡ (
        if available a.boards t r
        then some (update_row (is_expired a.boards t) (requeue t) r)
        else none)
    claimed =
        find_at_and b i (is_claimable a.boards t) rows (
          UniqueKeys-update_where (requeue t) (record { board = λ r. refl; post = λ r. refl }) _
            a.frontier u)
        ∙ ap (keep_row (is_claimable a.boards t)) (find-rows r found)
        ∙ kept
      where
        kept :
            keep_row
              (is_claimable a.boards t)
              (some (update_row (is_expired a.boards t) (requeue t) r))
            ≡ (if available a.boards t r
                then some (update_row (is_expired a.boards t) (requeue t) r)
                else none)
        kept = rw (claimable_again a.boards t r)

    left-row :
        find (at b i) left.frontier
        ≡ some (if available a.boards t r then granted a.boards t token until r else r)
    left-row =
        find_at-update_where (grant t token until) (record { board = λ r. refl; post = λ r. refl })
          (claims_one a.boards b i t) b i rows
        ∙ ap (map_row (update_row (claims_one a.boards b i t) (grant t token until)))
            (find-rows r found)
        ∙ ap some (here (Bool-cases (available a.boards t r)))
      where
        cleaned : Row
        cleaned = update_row (is_expired a.boards t) (requeue t) r

        under_key : at b i cleaned ≡ true
        under_key = find_at b i rows cleaned (find-rows r found)

        here :
            (available a.boards t r ≡ true) ⊎ (available a.boards t r ≡ false)
            → update_row (claims_one a.boards b i t) (grant t token until) cleaned
              ≡ (if available a.boards t r then granted a.boards t token until r else r)
        here (inl y) = rw under_key (rw (claimable_again a.boards t r) (rw y))
        here (inr n) =
            rw under_key
              (rw (claimable_again a.boards t r) (rw n (rw (expired_available a.boards t r n))))

    granted-IsLeased :
        available a.boards t r ≡ true → IsLeased t until token r (granted a.boards t token until r)
    granted-IsLeased y = elim (Bool-cases (is_expired a.boards t r)) [
      | inl e ↦ rw e (
          given (requeue t r)
            (record {
              same_rowid = refl;
              same_board = refl;
              same_post = refl;
              same_url = refl;
              same_priority = refl;
              same_listing = refl;
            })
            refl (rw (expired_runs a.boards t r e)) refl refl)
      | inr n ↦ rw n (
          given r
            (record {
              same_rowid = refl;
              same_board = refl;
              same_post = refl;
              same_url = refl;
              same_priority = refl;
              same_listing = refl;
            })
            refl (rw (waits_available a.boards t r y n)) refl refl)
    ]
      where
        given :
            (x : Row)
            → SamePost r x
            → x.attempts ≡ r.attempts
            → x.next_attempt_at ≡ (if is_running r.state then some t else r.next_attempt_at)
            → x.last_error_code ≡ r.last_error_code
            → x.expected_comment_count ≡ r.expected_comment_count
            → IsLeased t until token r (grant t token until x)
        given x same attempts retry error comments = record {
          post = record {
            same_rowid = same.same_rowid;
            same_board = same.same_board;
            same_post = same.same_post;
            same_url = same.same_url;
            same_priority = same.same_priority;
            same_listing = same.same_listing;
          };
          runs = refl;
          counted = ap (λ n. n + 1) attempts;
          tried = refl;
          token_is = refl;
          expires_is = refl;
          retry_is = retry;
          same_error = error;
          same_expected = comments;
        }

    lease-IsLeaseFor :
        IsLeaseFor
          (after now seconds)
          token
          r
          (lease_of token (after now seconds) (granted a.boards t token until r))
    lease-IsLeaseFor = elim (Bool-cases (is_expired a.boards t r)) [
      | inl e ↦ rw e (record {
        of_board = refl;
        of_post = refl;
        of_url = refl;
        attempt = refl;
        under = refl;
        ends = refl;
        expects = refl;
      })
      | inr n ↦ rw n (record {
        of_board = refl;
        of_post = refl;
        of_url = refl;
        attempt = refl;
        under = refl;
        ends = refl;
        expects = refl;
      })
    ]

    left-IsLocal : IsLocal b i a left
    left-IsLocal = record {
      others = λ b' i' s e other.
          find_other (grant t token until) (record { board = λ r. refl; post = λ r. refl }) b i
            (is_claimable a.boards t) b' i' rows s
            (find_other (requeue t) (record { board = λ r. refl; post = λ r. refl }) b i
              (is_expired a.boards t) b' i' a.frontier s e other)
            other;
      same_boards = refl;
      same_posts = refl;
    }

    -- A claim of an available post is answered with its lease.
    pub claim_available :
        ltb seconds 1 ≡ false
        → timestamp now ≡ ok t
        → available a.boards t r ≡ true
        → claim_identity a b i seconds now token
          ≡ ok (some (lease_of token (after now seconds) (granted a.boards t token until r)), left)
    claim_available s e y = claim_identity-eq s e ∙ rw claimed (rw y)

    -- `claim_identity` on a frontier where no key stands twice, with a lease of at least a second and an aware
    -- clock, for a post that has a row. If the post is available, the answer is the lease of this post
    -- with the given token, one attempt more and an expiry so many seconds later, and its row now runs
    -- under that token till then, with that attempt counted. If it is not, the answer is no lease, and
    -- the row is as it was. In both cases no other post's row is changed.
    pub claim_identity-exact :
        ltb seconds 1 ≡ false
        → timestamp now ≡ ok t
        → (available a.boards t r ≡ true
            → (lease : Lease) × (a' : Archive) × (r' : Row) × (claim_identity a b i seconds now
                  token
                ≡ ok (some lease, a'))
              × IsLeaseFor (after now seconds) token r lease
              × (find (at b i) a'.frontier ≡ some r')
              × IsLeased t (t + seconds) token r r'
              × IsLocal b i a a')
          × (available a.boards t r ≡ false
              → (a' : Archive) × (claim_identity a b i seconds now token ≡ ok (none, a'))
                × (find (at b i) a'.frontier ≡ some r)
                × IsLocal b i a a')
    claim_identity-exact s e = (
      λ y. (
        lease_of token (after now seconds) (granted a.boards t token until r),
        left,
        granted a.boards t token until r,
        claim_available s e y,
        lease-IsLeaseFor,
        left-row ∙ rw y,
        granted-IsLeased y,
        left-IsLocal,
      ),
      λ n. (left, claim_identity-eq s e ∙ rw claimed (rw n), left-row ∙ rw n, left-IsLocal),
    )
