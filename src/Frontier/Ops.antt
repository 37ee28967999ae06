-- ===== src/Frontier/Ops.antt =====
-- Every statement of crawler/frontier.py and of the leases in crawler/store.py that writes to the
-- frontier, as one type of operations, and what one of them does to an archive.
pub mod WellFormed
pub mod Held
pub mod Exclusive
use re_dstm.Prelude.{ℕ, ℤ, String, Bool, Option, List, [], ◌∷◌, Result, ok, err, ◌>>=◌}
use re_dstm.Frontier.Table.{State, Archive}
use re_dstm.Frontier.Clock.{DateTime}
use re_dstm.Frontier.Lease.{Lease, transition_lease, complete_lease}
use re_dstm.Frontier.Seed.{seed, listing_is_unchanged}
use re_dstm.Frontier.Claim.{claim_identity, claim}
use re_dstm.Frontier.Requeue.{
  requeue_full_content, requeue_stale_details, revive_missing_dead, requeue_dead,
}
use re_dstm.Frontier.Recovery.{recovery_candidates}

pub data Op : Type 0 where
  seed_post :
      (board_id : String) (post : ℕ) (url : String) (priority : ℤ) (reopen_done : Bool)
      (expected : Option ℤ) (captured : Bool) (sha : Option String)
      → Op
  check_listing :
      (board_id : String) (post : ℕ) (title : String) (category : Option String) (comments now : ℕ)
      → Op
  claim_post : (board_id : String) (post lease_seconds : ℕ) (now : DateTime) (token : String) → Op
  claim_batch : (limit lease_seconds : ℕ) (now : DateTime) (token : String) → Op
  recover : (limit : ℕ) (now : DateTime) (board_id : Option String) (missing_only : Bool) → Op
  refetch_content :
      (limit max_rowid : ℕ) (before : DateTime) (board_id : Option String) (now : DateTime) → Op
  refetch_stale : (limit : ℕ) (before : DateTime) (board_id : Option String) → Op
  revive : (board_id : Option String) → Op
  retry_dead : (code : String) (limit : ℕ) (board_id : Option String) → Op
  end_lease : (lease : Lease) (state : State) (code : Option String) (next : Option DateTime) → Op
  finish_lease : (lease : Lease) (comments : Option ℤ) → Op

abbrev second : {A : Type 0} → Result (A × Archive) → Result Archive
second r = r >>= λ p. ok p.1

abbrev after_error : Archive → Result Archive → Archive
after_error a (ok b) = b
after_error a (err e) = a

module _ (fingerprint : String → Option String → ℕ → String) where
  -- The answers are dropped.
  unfoldable pub run : Op → Archive → Result Archive
  run (seed_post b i url priority reopen expected captured sha) a =
      seed a b i url priority reopen expected captured sha
  run (check_listing b i title category comments now) a =
      ok (listing_is_unchanged fingerprint a b i title category comments now).1
  run (claim_post b i seconds now token) a = second (claim_identity a b i seconds now token)
  run (claim_batch limit seconds now token) a = second (claim a limit seconds now token)
  run (recover limit now b missing) a = second (recovery_candidates a limit now b missing)
  run (refetch_content limit top before b now) a =
      second (requeue_full_content a limit top before b now)
  run (refetch_stale limit before b) a = second (requeue_stale_details a limit before b)
  run (revive b) a = ok (revive_missing_dead a b).1
  run (retry_dead code limit b) a = second (requeue_dead a code limit b)
  run (end_lease lease state code next) a = transition_lease a lease state code next
  run (finish_lease lease comments) a = complete_lease a lease comments

  -- An exception rolls the transaction back.
  unfoldable pub step : Archive → Op → Archive
  unfolding run
  step a o = after_error a (run o a)

  unfoldable pub steps : Archive → List Op → Archive
  unfolding step
  steps a [] = a
  steps a (o ∷ os) = steps (step a o) os
