-- ===== src/Frontier/Invariant.antt =====
-- Well-formed frontiers: the table's CHECKs hold and no key stands twice. Updates keep this.
use re_dstm.Prelude.{
  ℕ, ℤ, String, ◌≡◌, refl, Bool, true, false, Option, List, [], ◌∷◌, ◌++◌, arith, All, All-append,
  All-of, foldl_inv, update_where, str_eq_iff, All-update_where,
}
use re_dstm.Frontier.Table.{Row, State, Board, Post, row_check, at, is_running}
use re_dstm.Frontier.Keys.{KeepsKey, Others, UniqueKeys, UniqueKeys-update_where}
use re_dstm.Frontier.Lease.{release, finish, is_terminal}
use re_dstm.Frontier.Claim.{requeue, grant, grant_all}
use re_dstm.Frontier.Requeue.{restart, restart_each}
use re_dstm.Frontier.Recovery.{is_network_dead, reopen_network}
use re_dstm.Frontier.Seed.{refresh, set_hash}

abbrev pub IsValid : Row → Type 0
IsValid r = row_check r ≡ true

pub record IsWellFormed (rows : List Row) : Type 0 where
  pub valid : All IsValid rows
  pub unique : UniqueKeys rows

-- An assignment that keeps the key, and the CHECKs of the rows that the statement selects.
pub record IsSafe (p : Row → Bool) (f : Row → Row) : Type 0 where
  pub keeps_key : KeepsKey f
  pub keeps_valid : (r : Row) → p r ≡ true → IsValid r → IsValid (f r)

pub update_where-IsWellFormed :
    {p : Row → Bool} {f : Row → Row} {rows : List Row}
    → IsSafe p f
    → IsWellFormed rows
    → IsWellFormed (update_where p f rows)
update_where-IsWellFormed {p} {f} {rows} safe w = record {
  valid = All-update_where IsValid p f safe.keeps_valid rows w.valid;
  unique = UniqueKeys-update_where f safe.keeps_key p rows w.unique;
}

module _ (p : Row → Bool) where
  pub requeue-IsSafe : (now : ℕ) → IsSafe p (requeue now)
  unfolding row_check
  requeue-IsSafe now = record {
    keeps_key = record { board = λ r. refl; post = λ r. refl };
    keeps_valid = λ r _ v. ground arith;
  }

  pub grant-IsSafe : (now : ℕ) (token : String) (expires : ℕ) → IsSafe p (grant now token expires)
  unfolding row_check
  grant-IsSafe now token expires = record {
    keeps_key = record { board = λ r. refl; post = λ r. refl };
    keeps_valid = λ r _ v. ground arith;
  }

  pub finish-IsSafe : (stored : Option ℕ) → IsSafe p (finish stored)
  unfolding row_check
  finish-IsSafe stored = record {
    keeps_key = record { board = λ r. refl; post = λ r. refl };
    keeps_valid = λ r _ v. ground arith;
  }

  pub release-IsSafe :
      (state : State) (next : Option ℕ) (code : Option String)
      → is_terminal state ≡ true
      → IsSafe p (release state next code)
  unfolding row_check
  release-IsSafe state next code t = record {
    keeps_key = record { board = λ r. refl; post = λ r. refl };
    keeps_valid = λ r _ v. ground arith;
  }

  pub restart-IsSafe : (state : State) → is_running state ≡ false → IsSafe p (restart state)
  unfolding row_check
  restart-IsSafe state waits = record {
    keeps_key = record { board = λ r. refl; post = λ r. refl };
    keeps_valid = λ r _ v. ground arith;
  }

  pub refresh-IsSafe :
      (url : String) (priority : ℤ) (expected : Option ℕ) (reopen : Bool) (sha : Option String)
      → IsSafe p (refresh url priority expected reopen sha)
  unfolding row_check refresh
  refresh-IsSafe url priority expected reopen sha = record {
    keeps_key = record { board = λ r. refl; post = λ r. refl };
    keeps_valid = λ r _ v. ground arith;
  }

  pub set_hash-IsSafe : (sha : String) → IsSafe p (set_hash sha)
  unfolding row_check
  set_hash-IsSafe sha = record {
    keeps_key = record { board = λ r. refl; post = λ r. refl };
    keeps_valid = λ r _ v. v;
  }

module _ (rows : List Row) (w : IsWellFormed rows) (selected : List Row) where
  pub grant_all-IsWellFormed :
      (now : ℕ) (token : String) (expires : ℕ)
      → IsWellFormed (grant_all now token expires rows selected)
  unfolding grant_all
  grant_all-IsWellFormed now token expires =
      foldl_inv IsWellFormed (λ _. Unit) _
        (λ rs s _ h. update_where-IsWellFormed (grant-IsSafe _ now token expires) h) selected rows
        (All-of (λ _. Unit) (λ _. tt) selected) w

  pub restart_each-IsWellFormed :
      (state : State) (test : Row → Bool)
      → is_running state ≡ false
      → IsWellFormed (restart_each state test rows selected)
  unfolding restart_each
  restart_each-IsWellFormed state test waits =
      foldl_inv IsWellFormed (λ _. Unit) _
        (λ rs s _ h. update_where-IsWellFormed (restart-IsSafe _ state waits) h) selected rows
        (All-of (λ _. Unit) (λ _. tt) selected) w

-- Only rows that are dead are reopened, and they hold no lease.
pub reopen_network-IsSafe :
    (boards : List Board) (posts : List Post) (board : Option String) (missing_only : Bool)
    (now : ℕ)
    → IsSafe (is_network_dead boards posts board missing_only) (reopen_network now)
unfolding row_check is_network_dead
reopen_network-IsSafe boards posts board missing_only now = record {
  keeps_key = record { board = λ r. refl; post = λ r. refl };
  keeps_valid = λ r p v. ground arith;
}

-- A row under a key that no row has may be added at the end.
Others-append :
    (r n : Row) (rows : List Row)
    → Others r rows
    → at r.board_id r.external_post_id n ≡ false
    → Others r (rows ++ n ∷ [])
Others-append r n rows h e = All-append _ rows (n ∷ []) h (e, tt)

UniqueKeys-append :
    (rows : List Row) (n : Row)
    → UniqueKeys rows
    → All (λ s. at n.board_id n.external_post_id s ≡ false) rows
    → UniqueKeys (rows ++ n ∷ [])
UniqueKeys-append [] n u h = (tt, tt)
UniqueKeys-append (r ∷ rows) n u h =
    (Others-append r n rows u.0 (flip r n h.0), UniqueKeys-append rows n u.1 h.1)
  where
    flip :
        (r n : Row)
        → at n.board_id n.external_post_id r ≡ false
        → at r.board_id r.external_post_id n ≡ false
    flip r n e = ground (arith, str_eq_iff r.board_id n.board_id, str_eq_iff n.board_id r.board_id)

pub append-IsWellFormed :
    (rows : List Row) (n : Row)
    → IsWellFormed rows
    → IsValid n
    → All (λ s. at n.board_id n.external_post_id s ≡ false) rows
    → IsWellFormed (rows ++ n ∷ [])
append-IsWellFormed rows n w v fresh = record {
  valid = All-append IsValid rows (n ∷ []) w.valid (v, tt);
  unique = UniqueKeys-append rows n w.unique fresh;
}
