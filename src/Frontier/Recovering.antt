-- ===== src/Frontier/Recovering.antt =====
-- What `recovery_candidates` returns and reopens.
use re_dstm.Prelude.{
  ℕ, min, String, ◌≡◌, ap, ◌∙◌, Bool, true, false, ◌&&◌, Option, List, map, arith, ok, ◌>>=◌,
  raise_if, ltb, All, All-imp, All-take, filter_passes, All-updated, All-of, length, length-take,
  length-filter, filter, count, update_row,
}
use re_dstm.Prelude.Sorting.{length-sort, All-sort}
use re_dstm.Frontier.Table.{Archive, Row, is_waiting, has_body, on_board}
use re_dstm.Frontier.Clock.{DateTime, timestamp}
use re_dstm.Frontier.Claim.{is_expired, is_due, requeue}
use re_dstm.Frontier.Requeue.{key_of}
use re_dstm.Frontier.Recovery.{
  is_network_dead, reopen_network, reopen_rows, is_candidate, joined_enabled, join_board,
  select_recovery, recovery_candidates,
}

module _ (a : Archive) (t : ℕ) (board : Option String) (missing_only : Bool) where
  -- A row that may be chosen: it waits and is due, its board is not disabled, it is on the board that
  -- was asked for, and if only missing bodies are wanted it has none.
  pub record IsWork (r : Row) : Type 0 where
    pub waits : is_waiting r.state ≡ true
    pub due : is_due t r ≡ true
    pub on_enabled : joined_enabled (join_board a.boards r) ≡ true
    pub asked : on_board board r ≡ true
    pub bodiless : missing_only ≡ true → has_body a.posts r ≡ false

  candidate-IsWork :
      (r : Row) → is_candidate a.boards a.posts t board missing_only r ≡ true → IsWork r
  unfolding is_candidate
  candidate-IsWork r h = record {
    waits = ground arith;
    due = ground arith;
    on_enabled = ground arith;
    asked = ground arith;
    bodiless = λ m. ground arith;
  }

  -- no network failure that could be reopened, and no expired lease, is left
  pub record IsReopened (r : Row) : Type 0 where
    pub alive : is_network_dead a.boards a.posts board missing_only r ≡ false
    pub unexpired : (is_expired a.boards t r && on_board board r) ≡ false

  reopened :
      (r : Row)
      → is_network_dead a.boards a.posts board missing_only
          (update_row (is_network_dead a.boards a.posts board missing_only) (reopen_network t) r)
        ≡ false
  unfolding is_network_dead
  reopened r = ground arith

  requeued :
      (r : Row)
      → is_network_dead a.boards a.posts board missing_only r ≡ false
      → IsReopened (update_row (λ r. is_expired a.boards t r && on_board board r) (requeue t) r)
  unfolding is_network_dead is_expired
  requeued r h = record { alive = ground arith; unexpired = ground arith }

  All-IsReopened : All IsReopened (reopen_rows a t board missing_only)
  unfolding reopen_rows
  All-IsReopened = All-updated _ IsReopened _ (requeue t) requeued _ (
      All-updated (λ _. Unit {0}) _ _ (reopen_network t) (λ r _. reopened r) a.frontier
        (All-of (λ _. Unit {0}) (λ _. tt) a.frontier))

  abbrev rows : List Row
  rows = reopen_rows a t board missing_only

  abbrev test : Row → Bool
  test = is_candidate a.boards a.posts t board missing_only

  module _ (limit : ℕ) where
    pub picked-IsWork : All IsWork (select_recovery a rows t limit board missing_only)
    unfolding select_recovery
    picked-IsWork = All-take IsWork limit _ (
        All-sort IsWork _ (filter test rows)
          (All-imp _ IsWork candidate-IsWork (filter test rows) (filter_passes test rows)))

    length-picked :
        length (select_recovery a rows t limit board missing_only) ≡ min limit (count test rows)
    unfolding select_recovery
    length-picked =
        length-take limit _
        ∙ ap (min limit) (length-sort _ (filter test rows) ∙ length-filter test rows)

    -- Recovery of at least one post, with an aware clock: it chooses as many posts as there are to
    -- choose, up to the limit, and each chosen row waits, is due, is on a board that is not disabled and
    -- on the board asked for, and has no body if only missing bodies are wanted. In the archive that it
    -- leaves, no row within the request is dead of a network failure or holds an expired lease.
    pub recovery_candidates-exact :
        (now : DateTime)
        → ltb limit 1 ≡ false
        → timestamp now ≡ ok t
        → (chosen : List Row) × (a' : Archive) × (recovery_candidates a limit now board missing_only
            ≡ ok (map key_of chosen, a'))
          × (length chosen
              ≡ min limit (count (is_candidate a.boards a.posts t board missing_only) a'.frontier))
          × All IsWork chosen
          × All IsReopened a'.frontier
    recovery_candidates-exact now positive e = (
      select_recovery a rows t limit board missing_only,
      record a { frontier = rows },
      result,
      length-picked,
      picked-IsWork,
      All-IsReopened,
    )
      where
        result :
            recovery_candidates a limit now board missing_only
            ≡ ok (
              map key_of (select_recovery a rows t limit board missing_only),
              record a { frontier = rows },
            )
        result = unfold recovery_candidates ◌>>=◌ raise_if in rw positive (rw e)
