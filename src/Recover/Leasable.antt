-- ===== src/Recover/Leasable.antt =====
-- Posts that can be leased at once, and that restarting rows keeps them so.
use re_dstm.Prelude.{
  any, str_eq, str_eq_iff, ◌||◌, ℕ, String, ◌≡◌, refl, ap, ◌∙◌, inl, inr, Bool, true, false, not,
  ◌&&◌, some, List, [], ◌∷◌, arith, Bool-cases, All, All-imp, find, map_row, update_row,
  update_where,
}
use re_dstm.Frontier.Table.{Row, Board, at, pending, is_waiting, is_done, enabled, disables}
use re_dstm.Frontier.Keys.{
  KeepsKey, UniqueKeys, UniqueKeys-update_where, find_at, find_at-update_where,
}
use re_dstm.Frontier.Claim.{is_due}
use re_dstm.Frontier.Requeue.{Key, key_of, restart, restart_each}
use re_dstm.Frontier.Recovery.{joined_enabled, join_board}

-- The key finds a row that waits and is due, on a board that is not disabled.
pub record Leasable (t : ℕ) (boards : List Board) (rows : List Row) (k : Key) : Type 0 where
  pub row : Row
  pub found : find (at k.0 k.1) rows ≡ some row
  pub waits : is_waiting row.state ≡ true
  pub due : is_due t row ≡ true
  pub on_enabled : enabled boards row.board_id ≡ true

pub restart-keys : KeepsKey (restart pending)
restart-keys = record { board = λ r. refl; post = λ r. refl }

found_restarted :
    (p : Row → Bool) (rows : List Row) (b : String) (i : ℕ) (r : Row)
    → find (at b i) rows ≡ some r
    → find (at b i) (update_where p (restart pending) rows)
      ≡ some (update_row p (restart pending) r)
found_restarted p rows b i r e =
    find_at-update_where (restart pending) restart-keys p b i rows
    ∙ ap (map_row (update_row p (restart pending))) e

-- `done` rows of the selected key, the test of `executemany`
abbrev one_done : Row → Row → Bool
one_done s r = at s.board_id s.external_post_id r && is_done r.state

abbrev restart_one : List Row → Row → List Row
restart_one rows s = update_where (one_done s) (restart pending) rows

restart-board :
    (p : Row → Bool) (r : Row) → (update_row p (restart pending) r).board_id ≡ r.board_id
restart-board p r = elim (Bool-cases (p r)) [ inl y ↦ rw y refl | inr n ↦ rw n refl ]

module _ (t : ℕ) (boards : List Board) where
  abbrev IsReady : Row → Type 0
  IsReady r = (is_waiting r.state ≡ true) × (is_due t r ≡ true)

  restart-IsReady :
      (p : Row → Bool) (r : Row) → IsReady r → IsReady (update_row p (restart pending) r)
  restart-IsReady p r h = elim (Bool-cases (p r)) [ inl y ↦ rw y (refl, refl) | inr n ↦ rw n h ]

  Leasable-restarted :
      (p : Row → Bool) (rows : List Row) (k : Key)
      → Leasable t boards rows k
      → Leasable t boards (update_where p (restart pending) rows) k
  Leasable-restarted p rows k h = record {
    row = update_row p (restart pending) h.row;
    found = found_restarted p rows k.0 k.1 h.row h.found;
    waits = (restart-IsReady p h.row (h.waits, h.due)).0;
    due = (restart-IsReady p h.row (h.waits, h.due)).1;
    on_enabled = rw (restart-board p h.row) h.on_enabled;
  }

  -- the key finds a row that is done or ready, on a board that is not disabled
  pub record Startable (rows : List Row) (s : Row) : Type 0 where
    pub row : Row
    pub found : find (at s.board_id s.external_post_id) rows ≡ some row
    pub ready : is_done row.state ≡ false → IsReady row
    pub on_enabled : enabled boards row.board_id ≡ true

  Startable-kept :
      (rows : List Row) (x s : Row) → Startable rows s → Startable (restart_one rows x) s
  Startable-kept rows x s h = record {
    row = update_row (one_done x) (restart pending) h.row;
    found = found_restarted (one_done x) rows s.board_id s.external_post_id h.row h.found;
    ready = λ n. elim (Bool-cases (one_done x h.row)) [
      | inl y ↦ rw y (refl, refl)
      | inr other ↦ rw other (h.ready (rw other at n))
    ];
    on_enabled = rw (restart-board (one_done x) h.row) h.on_enabled;
  }

  Startable-ready :
      (rows : List Row) (s : Row)
      → Startable rows s
      → Leasable t boards (restart_one rows s) (key_of s)
  Startable-ready rows s h = record {
    row = update_row (one_done s) (restart pending) h.row;
    found = found_restarted (one_done s) rows s.board_id s.external_post_id h.row h.found;
    waits = (now_ready (is_done h.row.state) refl).0;
    due = (now_ready (is_done h.row.state) refl).1;
    on_enabled = rw (restart-board (one_done s) h.row) h.on_enabled;
  }
    where
      now_ready :
          (b : Bool)
          → is_done h.row.state ≡ b
          → IsReady (update_row (one_done s) (restart pending) h.row)
      now_ready true e =
          rw (find_at s.board_id s.external_post_id rows h.row h.found, e) (refl, refl)
      now_ready false e = restart-IsReady (one_done s) h.row (h.ready e)

  pub restart_each-keeps :
      (selected rows : List Row) (k : Key)
      → Leasable t boards rows k
      → Leasable t boards (restart_each pending (λ r. is_done r.state) rows selected) k
  unfolding restart_each
  restart_each-keeps [] rows k h = h
  restart_each-keeps (x ∷ selected) rows k h =
      restart_each-keeps selected (restart_one rows x) k (Leasable-restarted (one_done x) rows k h)

  pub restart_each-ready :
      (selected rows : List Row)
      → All (Startable rows) selected
      → All
          (λ s.
            Leasable t boards
              (restart_each pending (λ r. is_done r.state) rows selected)
              (key_of s))
          selected
  unfolding restart_each
  restart_each-ready [] rows h = tt
  restart_each-ready (s ∷ selected) rows h = (
    restart_each-keeps selected (restart_one rows s) (key_of s) (Startable-ready rows s h.0),
    restart_each-ready selected (restart_one rows s) (
        All-imp (Startable rows) (Startable (restart_one rows s)) (Startable-kept rows s) selected
          h.1),
  )

pub restart_each-UniqueKeys :
    (selected rows : List Row)
    → UniqueKeys rows
    → UniqueKeys (restart_each pending (λ r. is_done r.state) rows selected)
unfolding restart_each
restart_each-UniqueKeys [] rows u = u
restart_each-UniqueKeys (x ∷ selected) rows u =
    restart_each-UniqueKeys selected (restart_one rows x)
      (UniqueKeys-update_where (restart pending) restart-keys (one_done x) rows u)

-- No board has two rows.
abbrev pub UniqueBoards : List Board → Type 0
UniqueBoards [] = Unit
UniqueBoards (b ∷ bs) = All (λ c. str_eq c.board_id b.board_id ≡ false) bs × UniqueBoards bs

not_disabled :
    (id : String) (bs : List Board)
    → All (λ c. str_eq c.board_id id ≡ false) bs
    → any (disables id) bs ≡ false
not_disabled id [] h = refl
not_disabled id (b ∷ bs) h = rw (h.0) (not_disabled id bs h.1)

-- The join on the board finds the row that the test for disabled boards does.
pub joined-enabled :
    (boards : List Board) (r : Row)
    → UniqueBoards boards
    → joined_enabled (join_board boards r) ≡ enabled boards r.board_id
unfolding enabled find
joined-enabled [] r u = refl
joined-enabled (b ∷ bs) r u = elim (Bool-cases (str_eq b.board_id r.board_id)) [
  | inl y ↦
      let e : b.board_id ≡ r.board_id = (str_eq_iff b.board_id r.board_id).0 y in
      rw (y, not_disabled r.board_id bs (rw e at u.0)) (both b.is_enabled)
  | inr n ↦ rw n (joined-enabled bs r u.1)
]
  where
    both : (x : Bool) → x ≡ not (not x || false)
    both x = ground arith
