-- ===== src/Frontier/Ops/Held.antt =====
-- Which operations leave a lease alone: all of them before it expires, but for the two by which
-- its own holder ends it.
use re_dstm.Prelude.{
  ℕ, ℤ, ◌<◌, String, ◌≡◌, refl, inl, inr, Bool, true, false, ◌&&◌, Option, none, some, List, [],
  ◌∷◌, arith, Result, ok, err, ◌>>=◌, ◌==◌, str_eq, str_eq_iff, any, Bool-cases, Option-cases,
  is_none, if◌then◌else◌, All, find, update_where,
}
use re_dstm.Prelude.Ensures.{Ensures, Ensures-ok, Ensures-err, Ensures-raise_if, Ensures-bind}
use re_dstm.Frontier.Table.{State, Archive, Row, Post, running, pending, at, post_at}
use re_dstm.Frontier.Clock.{DateTime, timestamp}
use re_dstm.Frontier.Keys.{UniqueKeys, UniqueKeys-update_where}
use re_dstm.Frontier.Seed.{seed, refresh, row_hash, listing_is_unchanged, backfill_hash}
use re_dstm.Frontier.Claim.{is_claimable, claim_identity, claim, select_due, is_expired, requeue}
use re_dstm.Frontier.Requeue.{
  is_dead_with, requeue_full_content, requeue_stale_details, revive_missing_dead, requeue_dead,
}
use re_dstm.Frontier.Recovery.{is_network_dead, recovery_candidates}
use re_dstm.Frontier.Lease.{Lease, held_by, transition_lease, complete_lease}
use re_dstm.Frontier.Ops.{
  Op, seed_post, check_listing, claim_post, claim_batch, recover, refetch_content, refetch_stale,
  revive, retry_dead, end_lease, finish_lease, second, after_error, run, step, steps,
}
use re_dstm.Frontier.Ops.WellFormed.{Good, step-Good}
use re_dstm.Frontier.Ops.Exclusive.{
  HoldsRow, IsHeld, Spares, update_where-IsHeld, misses, is_expired-holds, away_sorted,
  grant_all-IsHeld, restart_each-IsHeld, is_selected-away, append-IsHeld,
}

-- the lease of this post with this token
abbrev pub names : String → ℕ → String → Lease → Bool
names b i token lease =
    str_eq lease.board_id b && (lease.external_post_id == i && str_eq lease.lease_token token)

-- The operation's clock stands before the lease's expiry.
abbrev pub Before : ℕ → DateTime → Type 0
Before expires now = (t : ℕ) → timestamp now ≡ ok t → t < expires

-- An operation before the expiry that is not the holder's end of the lease.
abbrev pub LetsBe : String → ℕ → String → ℕ → Op → Type 0
LetsBe b i token expires (claim_post _ _ _ now _) = Before expires now
LetsBe b i token expires (claim_batch _ _ now _) = Before expires now
LetsBe b i token expires (recover _ now _ _) = Before expires now
LetsBe b i token expires (refetch_content _ _ _ _ now) = Before expires now
LetsBe b i token expires (end_lease lease _ _ _) = names b i token lease ≡ false
LetsBe b i token expires (finish_lease lease _) = names b i token lease ≡ false
LetsBe b i token expires _ = Unit

module _ (b : String) (i : ℕ) (token : String) (expires : ℕ) where
  abbrev Keeps : Archive → Type 0
  Keeps a = IsHeld b i token expires a.frontier

  abbrev KeepsPair : {A : Type 0} → A × Archive → Type 0
  KeepsPair p = IsHeld b i token expires (p.1).frontier

  held_by-names :
      (lease : Lease) (r : Row)
      → names b i token lease ≡ false
      → at b i r ≡ true
      → HoldsRow token expires r
      → held_by lease r ≡ false
  held_by-names lease r n a h = ground (
    arith,
    h.runs,
    h.token_is,
    str_eq_iff r.board_id b,
    str_eq_iff r.board_id lease.board_id,
    str_eq_iff lease.board_id b,
    str_eq_iff token lease.lease_token,
    str_eq_iff lease.lease_token token,
  )

  module _ (a : Archive) (w : Good a) (h : Keeps a) where
    transition_lease-Keeps :
        (lease : Lease) (state : State) (code : Option String) (next : Option DateTime)
        → names b i token lease ≡ false
        → Ensures Keeps (transition_lease a lease state code next)
    unfolding transition_lease
    transition_lease-Keeps lease state code next n = Ensures-raise_if _ _ _ λ _.
        Ensures-raise_if _ _ _ λ _. Ensures-bind _ _ λ _ _. Ensures-raise_if _ _ _ λ _.
          Ensures-ok _ (
            update_where-IsHeld b i token expires
              (misses b i token expires (record { board = λ r. refl; post = λ r. refl })
                (λ r. held_by-names lease r n))
              h)

    complete_lease-Keeps :
        (lease : Lease) (comments : Option ℤ)
        → names b i token lease ≡ false
        → Ensures Keeps (complete_lease a lease comments)
    unfolding complete_lease
    complete_lease-Keeps lease comments n = Ensures-raise_if _ _ _ λ _. Ensures-raise_if _ _ _ λ _.
        Ensures-ok _ (
          update_where-IsHeld b i token expires
            (misses b i token expires (record { board = λ r. refl; post = λ r. refl })
              (λ r. held_by-names lease r n))
            h)

    -- Seeding a post again never touches a running row's lease.
    refresh-Spares :
        (p : Row → Bool) (url : String) (priority : ℤ) (expected : Option ℕ) (reopen : Bool)
        (sha : Option String)
        → Spares b i token expires p (refresh url priority expected reopen sha)
    unfolding refresh
    refresh-Spares p url priority expected reopen sha = record {
      keeps_key = record { board = λ r. refl; post = λ r. refl };
      keeps_lease = λ r _ l. record {
        runs = ground (arith, l.runs);
        token_is = ground (arith, l.token_is);
        expires_is = ground (arith, l.expires_is);
      };
    }

    seed-Keeps :
        (b' : String) (i' : ℕ) (url : String) (priority : ℤ) (reopen : Bool) (expected : Option ℤ)
        (captured : Bool) (sha : Option String)
        → Ensures Keeps (seed a b' i' url priority reopen expected captured sha)
    unfolding seed
    seed-Keeps b' i' url priority reopen expected captured sha = Ensures-raise_if _ _ _ λ _.
        Ensures-raise_if _ _ _ λ _. elim (Bool-cases (any (at b' i') a.frontier)) [
          | inl old ↦ rw old (
              Ensures-ok _ (
                update_where-IsHeld b i token expires (refresh-Spares _ url priority _ reopen sha)
                  h))
          | inr new ↦ rw new (Ensures-ok _ (append-IsHeld b i token expires a.frontier _ h))
        ]

    claim_identity-Keeps :
        (b' : String) (i' seconds : ℕ) (now : DateTime) (other : String)
        → Before expires now
        → Ensures KeepsPair (claim_identity a b' i' seconds now other)
    unfolding claim_identity
    claim_identity-Keeps b' i' seconds now other early = Ensures-raise_if _ _ _ λ _.
        Ensures-bind _ _ λ t e. Ensures-bind _ _ λ _ _. Ensures-ok _ (
          update_where-IsHeld b i token expires
            (misses b i token expires (record { board = λ r. refl; post = λ r. refl })
              (λ r _ l. not_claimable b' i' t r l))
            (update_where-IsHeld b i token expires
              (misses b i token expires (record { board = λ r. refl; post = λ r. refl })
                (λ r _ l.
                  ground (arith, is_expired-holds b i token expires a.boards t r (early t e) l)))
              h))
      where
        not_claimable :
            (b' : String) (i' t : ℕ) (r : Row)
            → HoldsRow token expires r
            → (at b' i' r && is_claimable a.boards t r) ≡ false
        not_claimable b' i' t r l = unfold is_claimable in ground (arith, l.runs)

    -- the first statement of three operations
    expire-Keeps :
        (t : ℕ)
        → t < expires
        → IsHeld b i token expires (update_where (is_expired a.boards t) (requeue t) a.frontier)
    expire-Keeps t early =
        update_where-IsHeld b i token expires
          (misses b i token expires (record { board = λ r. refl; post = λ r. refl })
            (λ r _ l. is_expired-holds b i token expires a.boards t r early l))
          h

    expire_unique :
        (t : ℕ) → UniqueKeys (update_where (is_expired a.boards t) (requeue t) a.frontier)
    expire_unique t =
        UniqueKeys-update_where (requeue t) (record { board = λ r. refl; post = λ r. refl }) _
          a.frontier w.unique

    never_claimable : (t : ℕ) (r : Row) → is_claimable a.boards t r ≡ true → r.state ≡ running → ⊥
    unfolding is_claimable
    never_claimable t r c s = ground (arith, c, s)

    select_due-away :
        (t limit : ℕ)
        → t < expires
        → All
            (λ s. at b i s ≡ false)
            (select_due a.boards t limit
              (update_where (is_expired a.boards t) (requeue t) a.frontier))
    unfolding select_due
    select_due-away t limit early =
        away_sorted b i token expires _ _ _ limit (never_claimable t) (expire_unique t)
          (expire-Keeps t early)

    claim-Keeps :
        (limit seconds : ℕ) (now : DateTime) (other : String)
        → Before expires now
        → Ensures KeepsPair (claim a limit seconds now other)
    unfolding claim
    claim-Keeps limit seconds now other early = Ensures-raise_if _ _ _ λ _. Ensures-bind _ _ λ t e.
        Ensures-bind _ _ λ until _. Ensures-ok _ (
          grant_all-IsHeld b i token expires t other until _ _ (select_due-away t limit (early t e))
            (expire-Keeps t (early t e)))

    requeue_full_content-Keeps :
        (limit top : ℕ) (before : DateTime) (board : Option String) (now : DateTime)
        → Before expires now
        → Ensures KeepsPair (requeue_full_content a limit top before board now)
    unfolding requeue_full_content
    requeue_full_content-Keeps limit top before board now early = Ensures-raise_if _ _ _ λ _.
        Ensures-raise_if _ _ _ λ _. Ensures-bind _ _ λ t e. Ensures-bind _ _ λ cutoff _.
          Ensures-ok _ (
            restart_each-IsHeld b i token expires pending _ _ _ (λ r s. ground (arith, s))
              (expire-Keeps t (early t e)))

    requeue_stale_details-Keeps :
        (limit : ℕ) (before : DateTime) (board : Option String)
        → Ensures KeepsPair (requeue_stale_details a limit before board)
    unfolding requeue_stale_details
    requeue_stale_details-Keeps limit before board = Ensures-raise_if _ _ _ λ _.
        Ensures-bind _ _ λ cutoff _.
          Ensures-ok _
            (restart_each-IsHeld b i token expires pending _ _ _ (λ r s. ground (arith, s)) h)

    dead_runs :
        (r : Row) (code : String) (board : Option String)
        → is_dead_with a.boards code board r ≡ true
        → r.state ≡ running
        → ⊥
    unfolding is_dead_with
    dead_runs r code board d s = ground (arith, d, s)

    requeue_dead-Keeps :
        (code : String) (limit : ℕ) (board : Option String)
        → Ensures KeepsPair (requeue_dead a code limit board)
    unfolding requeue_dead
    requeue_dead-Keeps code limit board = Ensures-raise_if _ _ _ λ _. Ensures-raise_if _ _ _ λ _.
        Ensures-ok _ (
          update_where-IsHeld b i token expires
            (misses b i token expires (record { board = λ r. refl; post = λ r. refl })
              (λ r at_r _.
                is_selected-away b i token expires _ r
                  (away_sorted b i token expires a.frontier _ _ limit (λ r. dead_runs r code board)
                    w.unique h)
                  at_r))
            h)

    revive_missing_dead-Keeps : (board : Option String) → Keeps (revive_missing_dead a board).1
    unfolding revive_missing_dead
    revive_missing_dead-Keeps board =
        update_where-IsHeld b i token expires
          (misses b i token expires (record { board = λ r. refl; post = λ r. refl })
            (λ r _ l. ground (arith, l.runs)))
          h

    recovery_candidates-Keeps :
        (limit : ℕ) (now : DateTime) (board : Option String) (missing : Bool)
        → Before expires now
        → Ensures KeepsPair (recovery_candidates a limit now board missing)
    unfolding recovery_candidates
    recovery_candidates-Keeps limit now board missing early = Ensures-raise_if _ _ _ λ _.
        Ensures-bind _ _ λ t e. Ensures-ok _ (
          update_where-IsHeld b i token expires
            (misses b i token expires (record { board = λ r. refl; post = λ r. refl })
              (λ r _ l.
                ground (arith, is_expired-holds b i token expires a.boards t r (early t e) l)))
            (update_where-IsHeld b i token expires
              (misses b i token expires (record { board = λ r. refl; post = λ r. refl })
                (λ r _ l. not_network_dead board missing r l))
              h))
      where
        not_network_dead :
            (board : Option String) (missing : Bool) (r : Row)
            → HoldsRow token expires r
            → is_network_dead a.boards a.posts board missing r ≡ false
        not_network_dead board missing r l = unfold is_network_dead in ground (arith, l.runs)

    listing-Keeps :
        (fingerprint : String → Option String → ℕ → String) (b' : String) (i' : ℕ) (title : String)
        (category : Option String) (comments now : ℕ)
        → Keeps (listing_is_unchanged fingerprint a b' i' title category comments now).1
    unfolding listing_is_unchanged
    listing-Keeps fingerprint b' i' title category comments now =
        elim (Option-cases (find (post_at b' i') a.posts)) [
          | inl e ↦ rw (e, listing_is_unchanged) h
          | inr (p, e) ↦
              rw (e, listing_is_unchanged) (kept (row_hash (find (at b' i') a.frontier)) p)
        ]
      where
        kept :
            (hash : Option String) (p : Post)
            → Keeps (if is_none hash then backfill_hash fingerprint a b' i' p else a)
        kept none p =
            update_where-IsHeld b i token expires
              (misses b i token expires (record { board = λ r. refl; post = λ r. refl })
                (λ r _ l. ground (arith, l.runs)))
              h
        kept (some x) p = h

  second-Keeps :
      {A : Type 0} (r : Result (A × Archive)) → Ensures KeepsPair r → Ensures Keeps (second r)
  unfolding ◌>>=◌
  second-Keeps (ok p) h = Ensures-ok _ (h.at p refl)
  second-Keeps (err e) h = Ensures-err e

  module _ (fingerprint : String → Option String → ℕ → String) where
    run-Keeps :
        (o : Op) (a : Archive)
        → Good a
        → Keeps a
        → LetsBe b i token expires o
        → Ensures Keeps (run fingerprint o a)
    unfolding run
    run-Keeps (seed_post b' i' url priority reopen expected captured sha) a w h l =
        seed-Keeps a w h b' i' url priority reopen expected captured sha
    run-Keeps (check_listing b' i' title category comments now) a w h l =
        Ensures-ok _ (listing-Keeps a w h fingerprint b' i' title category comments now)
    run-Keeps (claim_post b' i' seconds now other) a w h l =
        second-Keeps _ (claim_identity-Keeps a w h b' i' seconds now other l)
    run-Keeps (claim_batch limit seconds now other) a w h l =
        second-Keeps _ (claim-Keeps a w h limit seconds now other l)
    run-Keeps (recover limit now board missing) a w h l =
        second-Keeps _ (recovery_candidates-Keeps a w h limit now board missing l)
    run-Keeps (refetch_content limit top before board now) a w h l =
        second-Keeps _ (requeue_full_content-Keeps a w h limit top before board now l)
    run-Keeps (refetch_stale limit before board) a w h l =
        second-Keeps _ (requeue_stale_details-Keeps a w h limit before board)
    run-Keeps (revive board) a w h l = Ensures-ok _ (revive_missing_dead-Keeps a w h board)
    run-Keeps (retry_dead code limit board) a w h l =
        second-Keeps _ (requeue_dead-Keeps a w h code limit board)
    run-Keeps (end_lease lease state code next) a w h l =
        transition_lease-Keeps a w h lease state code next l
    run-Keeps (finish_lease lease comments) a w h l = complete_lease-Keeps a w h lease comments l

    after_error-Keeps :
        (a : Archive) (r : Result Archive) → Keeps a → Ensures Keeps r → Keeps (after_error a r)
    after_error-Keeps a (ok a') h e = e.at a' refl
    after_error-Keeps a (err x) h e = h

    -- A lease is exclusive: from a well-formed frontier in which a post runs under a token, after any
    -- operations whose clocks stand before the lease's expiry, none of which is an end of that lease
    -- by its token, the post still runs under the same token with the same expiry.
    pub lease_exclusive :
        (os : List Op) (a : Archive)
        → Good a
        → IsHeld b i token expires a.frontier
        → All (LetsBe b i token expires) os
        → IsHeld b i token expires (steps fingerprint a os).frontier
    unfolding steps
    lease_exclusive [] a w h l = h
    lease_exclusive (o ∷ os) a w h l =
        lease_exclusive os (step fingerprint a o) (step-Good fingerprint o a w)
          (after_error-Keeps a (run fingerprint o a) h (run-Keeps o a w h l.0)) l.1
