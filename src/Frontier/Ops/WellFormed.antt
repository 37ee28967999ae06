-- ===== src/Frontier/Ops/WellFormed.antt =====
-- Every operation keeps the frontier well-formed.
use re_dstm.Prelude.{
  ℕ, ℤ, ◌+◌, String, ◌≡◌, refl, inl, inr, Bool, true, false, Option, List, [], ◌∷◌, arith, Result,
  ok, err, ◌>>=◌, ◌==◌, none, some, Option-cases, find, any, Bool-cases, is_none, if◌then◌else◌,
}
use re_dstm.Prelude.Ensures.{Ensures, Ensures-ok, Ensures-err, Ensures-raise_if, Ensures-bind}
use re_dstm.Frontier.Table.{State, Archive, Post, at, post_at, pending, retry, row_check}
use re_dstm.Frontier.Clock.{DateTime}
use re_dstm.Frontier.Lease.{Lease, transition_lease, complete_lease, as_count}
use re_dstm.Frontier.Seed.{seed, row_hash, new_row, max_rowid, listing_is_unchanged, backfill_hash}
use re_dstm.Frontier.Claim.{claim_identity, claim}
use re_dstm.Frontier.Requeue.{
  requeue_full_content, requeue_stale_details, revive_missing_dead, requeue_dead,
}
use re_dstm.Frontier.Recovery.{recovery_candidates, reopen_rows}
use re_dstm.Frontier.Keys.{any-false}
use re_dstm.Frontier.Invariant.{
  IsValid, IsWellFormed, update_where-IsWellFormed, requeue-IsSafe, grant-IsSafe, finish-IsSafe,
  release-IsSafe, restart-IsSafe, refresh-IsSafe, set_hash-IsSafe, reopen_network-IsSafe,
  grant_all-IsWellFormed, restart_each-IsWellFormed, append-IsWellFormed,
}
use re_dstm.Frontier.Ops.{
  Op, seed_post, check_listing, claim_post, claim_batch, recover, refetch_content, refetch_stale,
  revive, retry_dead, end_lease, finish_lease, second, after_error, run, step, steps,
}

abbrev pub Good : Archive → Type 0
Good a = IsWellFormed a.frontier

abbrev GoodAfter {ℓ} : {A : Type ℓ} → A × Archive → Type 0
GoodAfter p = IsWellFormed (p.1).frontier

not_false : (b : Bool) → (elim b [ true ↦ false | false ↦ true ]) ≡ false → b ≡ true
not_false b h = ground arith

module _ (a : Archive) (w : Good a) where
  transition_lease-Good :
      (lease : Lease) (state : State) (code : Option String) (next : Option DateTime)
      → Ensures Good (transition_lease a lease state code next)
  unfolding transition_lease
  transition_lease-Good lease state code next = Ensures-raise_if _ _ _ λ t.
      Ensures-raise_if _ _ _ λ _. Ensures-bind _ _ λ n _. Ensures-raise_if _ _ _ λ _.
        Ensures-ok _ (update_where-IsWellFormed (release-IsSafe _ state n code (ground arith)) w)

  complete_lease-Good :
      (lease : Lease) (comments : Option ℤ) → Ensures Good (complete_lease a lease comments)
  unfolding complete_lease
  complete_lease-Good lease comments = Ensures-raise_if _ _ _ λ _.
      Ensures-raise_if _ _ _
        λ _. Ensures-ok _ (update_where-IsWellFormed (finish-IsSafe _ (as_count comments)) w)

  seed-Good :
      (b : String) (i : ℕ) (url : String) (priority : ℤ) (reopen : Bool) (expected : Option ℤ)
      (captured : Bool) (sha : Option String)
      → Ensures Good (seed a b i url priority reopen expected captured sha)
  unfolding seed row_check
  seed-Good b i url priority reopen expected captured sha = Ensures-raise_if _ _ _ λ _.
      Ensures-raise_if _ _ _ λ nonzero. elim (Bool-cases (any (at b i) a.frontier)) [
        | inl old ↦ rw old (
            Ensures-ok _ (
              update_where-IsWellFormed
                (refresh-IsSafe _ url priority (as_count expected) reopen sha) w))
        | inr new ↦ rw new (
            Ensures-ok _ (
              append-IsWellFormed a.frontier _ w (fits captured nonzero)
                (any-false b i a.frontier new)))
      ]
    where
      fits :
          (captured : Bool) (nonzero : (i == 0) ≡ false)
          → IsValid
              (new_row (max_rowid a.frontier + 1) b i url priority (as_count expected) captured sha)
      fits captured nonzero = ground arith

  claim_identity-Good :
      (b : String) (i seconds : ℕ) (now : DateTime) (token : String)
      → Ensures GoodAfter (claim_identity a b i seconds now token)
  unfolding claim_identity
  claim_identity-Good b i seconds now token = Ensures-raise_if _ _ _ λ _. Ensures-bind _ _ λ at _.
      Ensures-bind _ _ λ expires _. Ensures-ok _ (
        update_where-IsWellFormed (grant-IsSafe _ at token expires)
          (update_where-IsWellFormed (requeue-IsSafe _ at) w))

  claim-Good :
      (limit seconds : ℕ) (now : DateTime) (token : String)
      → Ensures GoodAfter (claim a limit seconds now token)
  unfolding claim
  claim-Good limit seconds now token = Ensures-raise_if _ _ _ λ _. Ensures-bind _ _ λ at _.
      Ensures-bind _ _ λ expires _. Ensures-ok _ (
        grant_all-IsWellFormed _ (update_where-IsWellFormed (requeue-IsSafe _ at) w) _ at token
          expires)

  reopen_rows-IsWellFormed :
      (now : ℕ) (board : Option String) (missing : Bool)
      → IsWellFormed (reopen_rows a now board missing)
  unfolding reopen_rows
  reopen_rows-IsWellFormed now board missing =
      update_where-IsWellFormed (requeue-IsSafe _ now)
        (update_where-IsWellFormed (reopen_network-IsSafe a.boards a.posts board missing now) w)

  recovery_candidates-Good :
      (limit : ℕ) (now : DateTime) (board : Option String) (missing : Bool)
      → Ensures GoodAfter (recovery_candidates a limit now board missing)
  unfolding recovery_candidates
  recovery_candidates-Good limit now board missing =
      Ensures-raise_if _ _ _
        λ _. Ensures-bind _ _ λ at _. Ensures-ok _ (reopen_rows-IsWellFormed at board missing)

  requeue_full_content-Good :
      (limit top : ℕ) (before : DateTime) (board : Option String) (now : DateTime)
      → Ensures GoodAfter (requeue_full_content a limit top before board now)
  unfolding requeue_full_content
  requeue_full_content-Good limit top before board now = Ensures-raise_if _ _ _ λ _.
      Ensures-raise_if _ _ _ λ _. Ensures-bind _ _ λ at _. Ensures-bind _ _ λ cutoff _.
        Ensures-ok _ (
          restart_each-IsWellFormed _ (update_where-IsWellFormed (requeue-IsSafe _ at) w) _ pending
            _ refl)

  requeue_stale_details-Good :
      (limit : ℕ) (before : DateTime) (board : Option String)
      → Ensures GoodAfter (requeue_stale_details a limit before board)
  unfolding requeue_stale_details
  requeue_stale_details-Good limit before board = Ensures-raise_if _ _ _ λ _.
      Ensures-bind _ _
        λ cutoff _. Ensures-ok _ (restart_each-IsWellFormed a.frontier w _ pending _ refl)

  requeue_dead-Good :
      (code : String) (limit : ℕ) (board : Option String)
      → Ensures GoodAfter (requeue_dead a code limit board)
  unfolding requeue_dead
  requeue_dead-Good code limit board = Ensures-raise_if _ _ _ λ _.
      Ensures-raise_if _ _ _
        λ _. Ensures-ok _ (update_where-IsWellFormed (restart-IsSafe _ retry refl) w)

  revive_missing_dead-Good : (board : Option String) → Good (revive_missing_dead a board).1
  unfolding revive_missing_dead
  revive_missing_dead-Good board = update_where-IsWellFormed (restart-IsSafe _ retry refl) w

listing-Good :
    (fingerprint : String → Option String → ℕ → String) (a : Archive) (b : String) (i : ℕ)
    (title : String) (category : Option String) (comments now : ℕ)
    → Good a
    → Good (listing_is_unchanged fingerprint a b i title category comments now).1
unfolding listing_is_unchanged
listing-Good fingerprint a b i title category comments now w =
    elim (Option-cases (find (post_at b i) a.posts)) [
      | inl e ↦ rw (e, listing_is_unchanged) w
      | inr (p, e) ↦ rw (e, listing_is_unchanged) (kept (row_hash (find (at b i) a.frontier)) p)
    ]
  where
    kept :
        (hash : Option String) (p : Post)
        → Good (if is_none hash then backfill_hash fingerprint a b i p else a)
    kept none p = update_where-IsWellFormed (set_hash-IsSafe _ _) w
    kept (some h) p = w

second-Good :
    {A : Type 0} (r : Result (A × Archive)) → Ensures GoodAfter r → Ensures Good (second r)
unfolding ◌>>=◌
second-Good (ok p) h = Ensures-ok _ (h.at p refl)
second-Good (err e) h = Ensures-err e

module _ (fingerprint : String → Option String → ℕ → String) where
  run-Good : (o : Op) (a : Archive) → Good a → Ensures Good (run fingerprint o a)
  unfolding run
  run-Good (seed_post b i url priority reopen expected captured sha) a w =
      seed-Good a w b i url priority reopen expected captured sha
  run-Good (check_listing b i title category comments now) a w =
      Ensures-ok _ (listing-Good fingerprint a b i title category comments now w)
  run-Good (claim_post b i seconds now token) a w =
      second-Good _ (claim_identity-Good a w b i seconds now token)
  run-Good (claim_batch limit seconds now token) a w =
      second-Good _ (claim-Good a w limit seconds now token)
  run-Good (recover limit now b missing) a w =
      second-Good _ (recovery_candidates-Good a w limit now b missing)
  run-Good (refetch_content limit top before b now) a w =
      second-Good _ (requeue_full_content-Good a w limit top before b now)
  run-Good (refetch_stale limit before b) a w =
      second-Good _ (requeue_stale_details-Good a w limit before b)
  run-Good (revive b) a w = Ensures-ok _ (revive_missing_dead-Good a w b)
  run-Good (retry_dead code limit b) a w = second-Good _ (requeue_dead-Good a w code limit b)
  run-Good (end_lease lease state code next) a w = transition_lease-Good a w lease state code next
  run-Good (finish_lease lease comments) a w = complete_lease-Good a w lease comments

  after_error-Good :
      (a : Archive) (r : Result Archive) → Good a → Ensures Good r → Good (after_error a r)
  after_error-Good a (ok b) w h = h.at b refl
  after_error-Good a (err e) w h = w

  pub step-Good : (o : Op) (a : Archive) → Good a → Good (step fingerprint a o)
  unfolding step
  step-Good o a w = after_error-Good a (run fingerprint o a) w (run-Good o a w)

  -- Whatever operations run, in whatever order and with whatever arguments, from a frontier whose
  -- rows satisfy the CHECK constraints and in which no key stands twice, the frontier that they
  -- leave satisfies both again. So no statement breaks a constraint of the table.
  pub steps-IsWellFormed :
      (os : List Op) (a : Archive)
      → IsWellFormed a.frontier
      → IsWellFormed (steps fingerprint a os).frontier
  unfolding steps
  steps-IsWellFormed [] a w = w
  steps-IsWellFormed (o ∷ os) a w = steps-IsWellFormed os (step fingerprint a o) (step-Good o a w)
