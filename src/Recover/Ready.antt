-- ===== src/Recover/Ready.antt =====
-- What a batch of the recovery may be: posts that can be leased at once.
use re_dstm.Prelude.{
  ℕ, ◌-◌, ◌≤◌, String, ◌≡◌, refl, sym, ◌∙◌, inl, inr, Bool, true, false, not, ◌&&◌, Option, some,
  List, [], map, arith, Result, ok, err, Error, ◌/◌, ◌>>=◌, raise_if, ltb, ◌==◌, Bool-cases, All,
  All-imp, All-and, All-append, All-filter, All-take, All-map, filter_passes, length, length-append,
  length-take-le, length-map, take, filter,
}
use re_dstm.Prelude.Sorting.{sort, All-sort}
use re_dstm.Frontier.Table.{Archive, Row, at, pending, is_done, enabled}
use re_dstm.Frontier.Clock.{DateTime, timestamp, micros_per_second}
use re_dstm.Frontier.Keys.{
  UniqueKeys, UniqueKeys-update_where, Itself, All-Itself, at-eq_board, at-eq_post, find_at,
}
use re_dstm.Frontier.Claim.{requeue}
use re_dstm.Frontier.Requeue.{
  Key, key_of, restart_each, is_stale, by_detail_time, requeue_stale_details,
}
use re_dstm.Frontier.Recovering.{IsWork, picked-IsWork}
use re_dstm.Frontier.Recovery.{select_recovery, reopen_network, reopen_rows, recovery_candidates}
use re_dstm.Recover.Batch.{chosen, revisit, stale_before, stale_limit, recovery_batch}
use re_dstm.Recover.Leasable.{
  Leasable, Startable, restart_each-keeps, restart_each-ready, restart_each-UniqueKeys,
  UniqueBoards, joined-enabled,
}
use re_dstm.Frontier.Lease.{Lease}
use re_dstm.Frontier.Claim.{claim_identity}
use re_dstm.Frontier.Claiming.{available, claim_identity-exact}

reopened_unique :
    (a : Archive) (t : ℕ) (board : Option String) (missing_only : Bool)
    → UniqueKeys a.frontier
    → UniqueKeys (reopen_rows a t board missing_only)
unfolding reopen_rows
reopened_unique a t board missing_only u =
    UniqueKeys-update_where (requeue t) (record { board = λ r. refl; post = λ r. refl }) _ _
      (UniqueKeys-update_where (reopen_network t) (record { board = λ r. refl; post = λ r. refl }) _
        _ u)

module _ (a : Archive) (limit t : ℕ) (board : Option String) (missing_only : Bool)
    (u : UniqueKeys a.frontier) (ub : UniqueBoards a.boards) where
  abbrev rows : List Row
  rows = reopen_rows a t board missing_only

  abbrev picked : List Row
  picked = select_recovery a rows t limit board missing_only

  picked-Itself : All (Itself rows) picked
  unfolding select_recovery
  picked-Itself = All-take (Itself rows) limit _ (
      All-sort (Itself rows) _ _ (
        All-filter (Itself rows) _ rows
          (All-Itself rows (reopened_unique a t board missing_only u))))

  picked-Leasable : All (Leasable t a.boards rows) (map key_of picked)
  picked-Leasable = All-map (Leasable t a.boards rows) key_of picked (
      All-imp _ (λ r. Leasable t a.boards rows (key_of r))
        (λ r h. record {
          row = r;
          found = h.1;
          waits = h.0.waits;
          due = h.0.due;
          on_enabled = sym (joined-enabled a.boards r ub) ∙ h.0.on_enabled;
        })
        picked
        (All-and (IsWork a t board missing_only) (Itself rows) picked
          (picked-IsWork a t board missing_only limit) picked-Itself))

-- what the revisits leave, after a choice of posts that could be leased
record Revisited (t stale : ℕ) (found : List Key) (a : Archive) (r : Result (List Key × Archive))
    : Type 0 where
  again : List Key
  left : Archive
  result : r ≡ ok (again, left)
  few : length again ≤ stale
  same_boards : left.boards ≡ a.boards
  unique : UniqueKeys left.frontier
  ready : All (Leasable t a.boards left.frontier) again
  still : All (Leasable t a.boards left.frontier) found

stale_before-timestamp :
    (now : DateTime) (t : ℕ)
    → timestamp now ≡ ok t
    → (c : ℕ) × (timestamp (stale_before now) ≡ ok c)
unfolding timestamp
stale_before-timestamp now t e = elim (Bool-cases now.aware) [
  | inl y ↦ ((stale_before now).micros / micros_per_second, rw y)
  | inr n ↦ absurd (clash (rw n at e))
]
  where
    clash : {x : Error} → err x ≡ ok t → ⊥
    clash e = cc

module _ (a : Archive) (t stale : ℕ) (now : DateTime) (board : Option String) (found : List Key)
    (u : UniqueKeys a.frontier) (ready : All (Leasable t a.boards a.frontier) found) where
  abbrev stale_rows : ℕ → List Row
  stale_rows c =
      take stale
        (sort (by_detail_time a.posts) (filter (is_stale a.boards a.posts c board) a.frontier))

  is_stale_done :
      (c : ℕ) (r : Row)
      → is_stale a.boards a.posts c board r ≡ true
      → (is_done r.state ≡ true) × (enabled a.boards r.board_id ≡ true)
  unfolding is_stale
  is_stale_done c r h = (ground arith, ground arith)

  done_Startable :
      (r : Row)
      → ((is_done r.state ≡ true) × (enabled a.boards r.board_id ≡ true)) × Itself a.frontier r
      → Startable t a.boards a.frontier r
  done_Startable r h = record {
    row = r;
    found = h.1;
    ready = λ n. absurd (clash (sym h.0.0 ∙ n));
    on_enabled = h.0.1;
  }
    where
      clash : true ≡ false → ⊥
      clash e = cc

  stale_rows-Startable : (c : ℕ) → All (Startable t a.boards a.frontier) (stale_rows c)
  stale_rows-Startable c = All-take (Startable t a.boards a.frontier) stale _ (
      All-sort (Startable t a.boards a.frontier) _ _ (
        All-imp _ (Startable t a.boards a.frontier)
          (λ r h. done_Startable r (is_stale_done c r h.0, h.1))
          (filter (is_stale a.boards a.posts c board) a.frontier)
          (All-and _ (Itself a.frontier) _
            (filter_passes (is_stale a.boards a.posts c board) a.frontier)
            (All-filter (Itself a.frontier) (is_stale a.boards a.posts c board) a.frontier
              (All-Itself a.frontier u)))))

  requeue_stale_details-Revisited :
      (c : ℕ)
      → ltb stale 1 ≡ false
      → timestamp (stale_before now) ≡ ok c
      → Revisited t stale found a (requeue_stale_details a stale (stale_before now) board)
  unfolding requeue_stale_details ◌>>=◌ raise_if
  requeue_stale_details-Revisited c positive e = record {
    again = map key_of (stale_rows c);
    left = record a {
      frontier = restart_each pending (λ r. is_done r.state) a.frontier (stale_rows c);
    };
    result = rw positive (rw e);
    few = omega (
      arith,
      length-map key_of (stale_rows c),
      length-take-le stale
          (sort (by_detail_time a.posts) (filter (is_stale a.boards a.posts c board) a.frontier)),
    );
    same_boards = refl;
    unique = restart_each-UniqueKeys (stale_rows c) a.frontier u;
    ready =
        All-map
          (Leasable t a.boards
            (restart_each pending (λ r. is_done r.state) a.frontier (stale_rows c)))
          key_of (stale_rows c)
          (restart_each-ready t a.boards (stale_rows c) a.frontier (stale_rows-Startable c));
    still =
        All-imp (Leasable t a.boards a.frontier) _
          (restart_each-keeps t a.boards (stale_rows c) a.frontier) found ready;
  }

  revisit-Revisited :
      (missing_only : Bool)
      → timestamp now ≡ ok t
      → Revisited t stale found a (revisit a stale now board missing_only)
  unfolding revisit
  revisit-Revisited missing_only e = elim (Bool-cases (not (stale == 0) && not missing_only)) [
    | inl y ↦
        let (c, e') = stale_before-timestamp now t e in
        rw y (requeue_stale_details-Revisited c (ground arith) e')
    | inr n ↦ rw n (record {
      again = [];
      left = a;
      result = refl;
      few = omega arith;
      same_boards = refl;
      unique = u;
      ready = tt;
      still = ready;
    })
  ]

chosen-le :
    (limit : ℕ) (due again : List Key)
    → length again ≤ stale_limit limit (length due)
    → length (chosen limit due again) ≤ limit
chosen-le limit due again few = omega (
  arith,
  length-append (take (limit - length again) due) again,
  length-take-le (limit - length again) due,
  few,
)

chosen-has : (limit : ℕ) (due again : List Key) → length again ≤ length (chosen limit due again)
chosen-has limit due again = omega (arith, length-append (take (limit - length again) due) again)

-- Whoever asks for a lease of the post at `now`, for a second or longer, is given one of it.
abbrev pub CanLease : DateTime → Archive → Key → Type 0
CanLease now a k =
    (seconds : ℕ) (token : String)
    → ltb seconds 1 ≡ false
    → (lease : Lease) × (a' : Archive) × (claim_identity a k.0 k.1 seconds now token
        ≡ ok (some lease, a'))
      × (lease.board_id ≡ k.0)
      × (lease.external_post_id ≡ k.1)

Leasable-CanLease :
    (t : ℕ) (now : DateTime) (a : Archive) (k : Key)
    → timestamp now ≡ ok t
    → UniqueKeys a.frontier
    → Leasable t a.boards a.frontier k
    → CanLease now a k
Leasable-CanLease t now a k e u h seconds token s =
    let (lease, a', _, given, for_row, _, _, _) =
      (claim_identity-exact a k.0 k.1 seconds now token t u h.row h.found s e).0 free in
    (
      lease,
      a',
      given,
      for_row.of_board ∙ at-eq_board k.0 k.1 h.row under_key,
      for_row.of_post ∙ at-eq_post k.0 k.1 h.row under_key,
    )
  where
    under_key : at k.0 k.1 h.row ≡ true
    under_key = find_at k.0 k.1 a.frontier h.row h.found

    free : available a.boards t h.row ≡ true
    free = rw (h.on_enabled, h.waits, h.due) refl

-- what a batch leaves
abbrev pub Batched : DateTime → ℕ → Result ((List Key × ℕ) × Archive) → Type 0
Batched now limit r =
    (batch : List Key) × (revisits : ℕ) × (left : Archive) × (r ≡ ok ((batch, revisits), left))
    × (length batch ≤ limit)
    × (revisits ≤ length batch)
    × All (CanLease now left) batch

module _ (a : Archive) (limit t : ℕ) (now : DateTime) (board : Option String)
    (missing_only : Bool) where
  batch_of :
      (found : List Key) (reopened : Archive)
      → recovery_candidates a limit now board missing_only ≡ ok (found, reopened)
      → Revisited t
          (stale_limit limit (length found))
          found
          reopened
          (revisit reopened (stale_limit limit (length found)) now board missing_only)
      → timestamp now ≡ ok t
      → Batched now limit (recovery_batch a limit now board missing_only)
  unfolding recovery_batch ◌>>=◌
  batch_of found reopened e r clock = (
    chosen limit found r.again,
    length r.again,
    r.left,
    rw e (rw r.result),
    chosen-le limit found r.again r.few,
    chosen-has limit found r.again,
    All-imp (Leasable t reopened.boards r.left.frontier) (CanLease now r.left)
        (λ k h. Leasable-CanLease t now r.left k clock r.unique (rw r.same_boards h))
        (chosen limit found r.again)
        (All-append (Leasable t reopened.boards r.left.frontier)
          (take (limit - length r.again) found) r.again
          (All-take (Leasable t reopened.boards r.left.frontier) (limit - length r.again) found
            r.still)
          r.ready),
  )

  candidates :
      ltb limit 1 ≡ false
      → timestamp now ≡ ok t
      → recovery_candidates a limit now board missing_only
        ≡ ok (
          map key_of
              (select_recovery a (reopen_rows a t board missing_only) t limit board missing_only),
          record a { frontier = reopen_rows a t board missing_only },
        )
  unfolding recovery_candidates ◌>>=◌ raise_if
  candidates positive e = rw positive (rw e)

  -- A batch of at least one post, from tables with their primary keys and with an aware clock, returns:
  -- no more posts than the limit, the revisits among them, and in the archive that it leaves each of the
  -- posts is given to whoever claims it at once.
  pub recovery_batch-exact :
      UniqueKeys a.frontier
      → UniqueBoards a.boards
      → ltb limit 1 ≡ false
      → timestamp now ≡ ok t
      → Batched now limit (recovery_batch a limit now board missing_only)
  recovery_batch-exact u ub positive e =
      batch_of (map key_of (picked a limit t board missing_only u ub))
        (record a { frontier = reopen_rows a t board missing_only }) (candidates positive e)
        (revisit-Revisited (record a { frontier = reopen_rows a t board missing_only }) t _ now
          board (map key_of (picked a limit t board missing_only u ub))
          (reopened_unique a t board missing_only u)
          (picked-Leasable a limit t board missing_only u ub) missing_only e)
        e
