-- ===== src/Frontier/Batch.antt =====
-- What `claim` answers and leaves: how many leases, on which boards, and that each of them holds.
use re_dstm.Prelude.{
  ℕ, ◌+◌, min, String, ◌≡◌, refl, ap, ◌∙◌, inl, inr, Bool, true, false, ◌||◌, Option, none, some,
  List, [], ◌∷◌, map, arith, ok, ◌>>=◌, raise_if, ltb, Bool-cases, if◌then◌else◌, is_some, All,
  All-imp, All-and, All-filter, All-take, All-map, filter_passes, length, length-map, length-take,
  length-filter, filter, count, find, map_row, update_row, update_where, count-update_where,
}
use re_dstm.Prelude.Sorting.{sort, length-sort, All-sort}
use re_dstm.Frontier.Table.{Archive, Row, at, enabled}
use re_dstm.Frontier.Clock.{DateTime, timestamp, after}
use re_dstm.Frontier.Keys.{KeepsKey, at_self, find_at, find_at-update_where}
use re_dstm.Frontier.Order.{by_priority}
use re_dstm.Frontier.Lease.{Lease}
use re_dstm.Frontier.Claim.{
  is_expired, requeue, is_claimable, grant, grant_each, grant_all, select_due, lease_of, claim,
}
use re_dstm.Frontier.Claiming.{available, claimable_again, timestamp-after}
use re_dstm.Frontier.Ops.Exclusive.{HoldsRow, IsHeld}

-- the key finds a row
abbrev Found : List Row → Row → Type 0
Found rows s = is_some (find (at s.board_id s.external_post_id) rows) ≡ true

Found-in_tail : (r : Row) (rs : List Row) (s : Row) → Found rs s → Found (r ∷ rs) s
unfolding find
Found-in_tail r rs s h = elim (Bool-cases (at s.board_id s.external_post_id r)) [
  | inl k ↦ rw k
  | inr k ↦ rw k h
]

Found-head : (r : Row) (rs : List Row) → Found (r ∷ rs) r
unfolding find
Found-head r rs = rw (at_self r)

-- Each row of a table is under a key that finds one.
All-Found : (rs : List Row) → All (Found rs) rs
All-Found [] = tt
All-Found (r ∷ rs) =
    (Found-head r rs, All-imp (Found rs) (Found (r ∷ rs)) (Found-in_tail r rs) rs (All-Found rs))

is_some-map_row : (f : Row → Row) (o : Option Row) → is_some (map_row f o) ≡ is_some o
is_some-map_row f none = refl
is_some-map_row f (some r) = refl

Found-update_where :
    (f : Row → Row) (k : KeepsKey f) (p : Row → Bool) (rs : List Row) (s : Row)
    → Found rs s
    → Found (update_where p f rs) s
Found-update_where f k p rs s h =
    ap is_some (find_at-update_where f k p s.board_id s.external_post_id rs)
    ∙ is_some-map_row (update_row p f) (find (at s.board_id s.external_post_id) rs)
    ∙ h

module _ (t : ℕ) (token : String) (until : ℕ) where
  abbrev HeldIn : List Row → Row → Type 0
  HeldIn rows s = IsHeld s.board_id s.external_post_id token until rows

  grant-keys : KeepsKey (grant t token until)
  grant-keys = record { board = λ r. refl; post = λ r. refl }

  -- A grant under the same token takes no lease of that token away.
  grant_more :
      (p : Row → Bool) (rows : List Row) (s : Row)
      → HeldIn rows s
      → HeldIn (update_where p (grant t token until) rows) s
  grant_more p rows s h = record {
    row = update_row p (grant t token until) h.row;
    found =
        find_at-update_where (grant t token until) grant-keys p s.board_id s.external_post_id rows
        ∙ ap (map_row (update_row p (grant t token until))) h.found;
    holds = still (p h.row);
  }
    where
      still : (b : Bool) → HoldsRow token until (if b then grant t token until h.row else h.row)
      still true = record { runs = refl; token_is = refl; expires_is = refl }
      still false = h.holds

  grant_now :
      (rows : List Row) (s : Row) → Found rows s → HeldIn (grant_each t token until rows s) s
  grant_now rows s h = go (find (at s.board_id s.external_post_id) rows) refl h
    where
      go :
          (o : Option Row)
          → find (at s.board_id s.external_post_id) rows ≡ o
          → is_some o ≡ true
          → HeldIn (grant_each t token until rows s) s
      go none e i = cc
      go (some r) e i = record {
        row = grant t token until r;
        found =
            find_at-update_where (grant t token until) grant-keys (at s.board_id s.external_post_id)
              s.board_id s.external_post_id rows
            ∙ ap (map_row (update_row (at s.board_id s.external_post_id) (grant t token until))) e
            ∙ rw (find_at s.board_id s.external_post_id rows r e);
        holds = record { runs = refl; token_is = refl; expires_is = refl };
      }

  grant_all-keeps :
      (selected rows : List Row) (s : Row)
      → HeldIn rows s
      → HeldIn (grant_all t token until rows selected) s
  unfolding grant_all
  grant_all-keeps [] rows s h = h
  grant_all-keeps (x ∷ selected) rows s h =
      grant_all-keeps selected (grant_each t token until rows x) s
        (grant_more (at x.board_id x.external_post_id) rows s h)

  grant_all-holds :
      (selected rows : List Row)
      → All (Found rows) selected
      → All (HeldIn (grant_all t token until rows selected)) selected
  unfolding grant_all
  grant_all-holds [] rows h = tt
  grant_all-holds (s ∷ selected) rows h = (
    grant_all-keeps selected (grant_each t token until rows s) s (grant_now rows s h.0),
    grant_all-holds selected (grant_each t token until rows s) (
        All-imp (Found rows) (Found (grant_each t token until rows s))
          (Found-update_where (grant t token until) grant-keys _ rows) selected h.1),
  )

module _ (a : Archive) (limit seconds : ℕ) (now : DateTime) (token : String) (t : ℕ) where
  abbrev rows : List Row
  rows = update_where (is_expired a.boards t) (requeue t) a.frontier

  abbrev selected : List Row
  selected = select_due a.boards t limit rows

  abbrev leases : List Lease
  leases = map (λ r. lease_of token (after now seconds) (grant t token (t + seconds) r)) selected

  -- each lease with its post, on a board that is not disabled
  abbrev pub Granted : Archive → Lease → Type 0
  Granted a' l =
      IsHeld l.board_id l.external_post_id token (t + seconds) a'.frontier
      × (enabled a.boards l.board_id ≡ true)
      × (l.lease_token ≡ token)

  claim-eq :
      (ltb limit 1 || ltb seconds 1) ≡ false
      → timestamp now ≡ ok t
      → claim a limit seconds now token
        ≡ ok (leases, record a { frontier = grant_all t token (t + seconds) rows selected })
  unfolding claim ◌>>=◌ raise_if
  claim-eq s e = rw s (rw e (rw (timestamp-after now seconds t e)))

  length-leases : length leases ≡ min limit (count (available a.boards t) a.frontier)
  unfolding select_due
  length-leases =
      length-map _ selected
      ∙ length-take limit (sort by_priority (filter (is_claimable a.boards t) rows))
      ∙ ap (min limit) (
          length-sort by_priority (filter (is_claimable a.boards t) rows)
          ∙ length-filter (is_claimable a.boards t) rows
          ∙ count-update_where (is_claimable a.boards t) (available a.boards t)
              (is_expired a.boards t) (requeue t) (claimable_again a.boards t) a.frontier)

  selected_of {ℓ} :
      (P : Row → Type ℓ) → All P (filter (is_claimable a.boards t) rows) → All P selected
  unfolding select_due
  selected_of P h =
      All-take P limit (sort by_priority (filter (is_claimable a.boards t) rows))
        (All-sort P by_priority (filter (is_claimable a.boards t) rows) h)

  claimable_enabled :
      (r : Row) → is_claimable a.boards t r ≡ true → enabled a.boards r.board_id ≡ true
  unfolding is_claimable
  claimable_enabled r h = ground arith

  -- A batch claim of at least one post and one second, with an aware clock, answers: as many leases as
  -- posts are available, up to the limit. In the archive that it leaves, the post of each lease runs
  -- under the given token till so many seconds later, and none of them is on a disabled board.
  pub claim-exact :
      (ltb limit 1 || ltb seconds 1) ≡ false
      → timestamp now ≡ ok t
      → (granted : List Lease) × (a' : Archive) × (claim a limit seconds now token
          ≡ ok (granted, a'))
        × (length granted ≡ min limit (count (available a.boards t) a.frontier))
        × All (Granted a') granted
  claim-exact s e = (
    leases,
    record a { frontier = grant_all t token (t + seconds) rows selected },
    claim-eq s e,
    length-leases,
    All-map (Granted after_claim) _ selected (
        All-imp
          (λ r.
            HeldIn t token (t + seconds) after_claim.frontier r
            × (enabled a.boards r.board_id ≡ true))
          (λ r.
            Granted after_claim
              (lease_of token (after now seconds) (grant t token (t + seconds) r)))
          (λ r h. (h.0, h.1, refl)) selected
          (All-and _ _ selected
            (grant_all-holds t token (t + seconds) selected rows (
              selected_of (Found rows)
                (All-filter (Found rows) (is_claimable a.boards t) rows (All-Found rows))))
            (selected_of (λ r. enabled a.boards r.board_id ≡ true)
              (All-imp _ _ claimable_enabled (filter (is_claimable a.boards t) rows)
                (filter_passes (is_claimable a.boards t) rows))))),
  )
    where
      after_claim : Archive
      after_claim = record a { frontier = grant_all t token (t + seconds) rows selected }
