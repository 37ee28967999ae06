-- ===== src/Frontier/Ops/Exclusive.antt =====
-- A lease is exclusive: until it expires, only its holder ends it.
use re_dstm.Prelude.{
  ℕ, ◌<◌, String, ◌≡◌, refl, ap, ◌∙◌, inl, inr, Bool, true, false, some, List, [], ◌∷◌, ◌++◌, arith,
  Bool-cases, All, All-imp, All-and, All-filter, All-take, All-of, filter_passes, foldl_inv, filter,
  take, find, find-append, map_row, update_row, update_where,
}
use re_dstm.Prelude.Sorting.{sort, All-sort}
use re_dstm.Frontier.Table.{State, Row, Board, running, at}
use re_dstm.Frontier.Keys.{
  KeepsKey, UniqueKeys, at_swap, find_at, find_at-update_where, All-under_key,
}
use re_dstm.Frontier.Claim.{is_expired, grant_all}
use re_dstm.Frontier.Requeue.{restart_each, is_selected}

pub record HoldsRow (token : String) (expires : ℕ) (r : Row) : Type 0 where
  pub runs : r.state ≡ running
  pub token_is : r.lease_token ≡ some token
  pub expires_is : r.lease_expires_at ≡ some expires

-- The row under the key runs with this lease.
pub record IsHeld (b : String) (i : ℕ) (token : String) (expires : ℕ) (rows : List Row)
    : Type 0 where
  pub row : Row
  pub found : find (at b i) rows ≡ some row
  pub holds : HoldsRow token expires row

module _ (b : String) (i : ℕ) (token : String) (expires : ℕ) where
  abbrev Held : List Row → Type 0
  Held = IsHeld b i token expires

  -- An update that keeps the lease of the row under the key.
  pub record Spares (p : Row → Bool) (f : Row → Row) : Type 0 where
    pub keeps_key : KeepsKey f
    pub keeps_lease :
        (r : Row)
        → at b i r ≡ true
        → HoldsRow token expires r
        → HoldsRow token expires (update_row p f r)

  pub update_where-IsHeld :
      {p : Row → Bool} {f : Row → Row} {rows : List Row}
      → Spares p f
      → Held rows
      → Held (update_where p f rows)
  update_where-IsHeld {p} {f} {rows} s h = record {
    row = update_row p f h.row;
    found = find_at-update_where f s.keeps_key p b i rows ∙ ap (map_row (update_row p f)) h.found;
    holds = s.keeps_lease h.row (find_at b i rows h.row h.found) h.holds;
  }

  -- an update that does not select the row
  pub misses :
      {p : Row → Bool} {f : Row → Row}
      → KeepsKey f
      → ((r : Row) → at b i r ≡ true → HoldsRow token expires r → p r ≡ false)
      → Spares p f
  misses {p} {f} k m = record { keeps_key = k; keeps_lease = λ r a h. rw (m r a h) h }

  pub is_expired-holds :
      (boards : List Board) (now : ℕ) (r : Row)
      → now < expires
      → HoldsRow token expires r
      → is_expired boards now r ≡ false
  unfolding is_expired
  is_expired-holds boards now r early h = ground (arith, h.runs, h.expires_is)

  -- The rows under the key all run, so none of the selected rows is under it.
  away :
      (rows : List Row) (p : Row → Bool)
      → ((r : Row) → p r ≡ true → r.state ≡ running → ⊥)
      → UniqueKeys rows
      → Held rows
      → All (λ s. at b i s ≡ false) (filter p rows)
  away rows p never u h =
      All-imp (λ s. ((at b i s ≡ true → s.state ≡ running) × (p s ≡ true))) (λ s. at b i s ≡ false)
        (λ s c. elim (Bool-cases (at b i s)) [ inl a ↦ absurd (never s c.1 (c.0 a)) | inr n ↦ n ])
        (filter p rows)
        (All-and _ _ (filter p rows)
          (All-filter _ p rows
            (All-under_key (λ s. s.state ≡ running) b i rows h.row u h.found h.holds.runs))
          (filter_passes p rows))

  pub away_sorted :
      (rows : List Row) (p : Row → Bool) (before : Row → Row → Bool) (limit : ℕ)
      → ((r : Row) → p r ≡ true → r.state ≡ running → ⊥)
      → UniqueKeys rows
      → Held rows
      → All (λ s. at b i s ≡ false) (take limit (sort before (filter p rows)))
  away_sorted rows p before limit never u h =
      All-take _ limit (sort before (filter p rows))
        (All-sort _ before (filter p rows) (away rows p never u h))

  pub grant_all-IsHeld :
      (now : ℕ) (other : String) (until : ℕ) (selected rows : List Row)
      → All (λ s. at b i s ≡ false) selected
      → Held rows
      → Held (grant_all now other until rows selected)
  unfolding grant_all
  grant_all-IsHeld now other until selected rows q h =
      foldl_inv Held (λ s. at b i s ≡ false) _
        (λ rs s n k.
          update_where-IsHeld
            (misses (record { board = λ r. refl; post = λ r. refl })
              (λ r a _. at_swap b i r s a ∙ n))
            k)
        selected rows q h

  pub restart_each-IsHeld :
      (state : State) (test : Row → Bool) (selected rows : List Row)
      → ((r : Row) → r.state ≡ running → test r ≡ false)
      → Held rows
      → Held (restart_each state test rows selected)
  unfolding restart_each
  restart_each-IsHeld state test selected rows skip h =
      foldl_inv Held (λ _. Unit {0}) _
        (λ rs s _ k.
          update_where-IsHeld
            (misses (record { board = λ r. refl; post = λ r. refl })
              (λ r a l. ground (arith, skip r l.runs)))
            k)
        selected rows (All-of _ (λ _. tt) selected) h

  pub is_selected-away :
      (selected : List Row) (r : Row)
      → All (λ s. at b i s ≡ false) selected
      → at b i r ≡ true
      → is_selected selected r ≡ false
  is_selected-away [] r h a = refl
  is_selected-away (s ∷ selected) r h a =
      rw (at_swap b i r s a ∙ h.0) (is_selected-away selected r h.1 a)

  -- A row that is added under another key, or at the end, is not the one that the key finds.
  pub append-IsHeld : (rows : List Row) (n : Row) → Held rows → Held (rows ++ n ∷ [])
  append-IsHeld rows n h = record {
    row = h.row;
    found = find-append (at b i) rows (n ∷ []) h.row h.found;
    holds = h.holds;
  }
