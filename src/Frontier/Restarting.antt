-- ===== src/Frontier/Restarting.antt =====
-- That the updates of `executemany`, one for each selected row, are one update of all selected rows.
use re_dstm.Prelude.{
  ◌≡◌, refl, sym, ap, ◌∙◌, inl, inr, Bool, false, ◌&&◌, ◌||◌, List, [], ◌∷◌, arith, Bool-cases,
  update_row, update_where,
}
use re_dstm.Frontier.Table.{State, Row, at}
use re_dstm.Frontier.Requeue.{restart, restart_each, is_selected}

module _ (state : State) where
  -- A row that was restarted is not changed by a restart.
  restart_row-twice :
      (p q : Row → Bool) (r : Row)
      → update_row q (restart state) (update_row p (restart state) r)
        ≡ update_row (λ x. p x || q x) (restart state) r
  restart_row-twice p q r = elim (Bool-cases (p r)) [
    | inr n ↦ rw n
    | inl y ↦ elim (Bool-cases (q (restart state r))) [ inl k ↦ rw (y, k) | inr k ↦ rw (y, k) ]
  ]

  restart-twice :
      (p q : Row → Bool) (rows : List Row)
      → update_where q (restart state) (update_where p (restart state) rows)
        ≡ update_where (λ x. p x || q x) (restart state) rows
  unfolding update_where
  restart-twice p q [] = refl
  restart-twice p q (r ∷ rows) = rw (restart_row-twice p q r, restart-twice p q rows)

  update_where-same :
      (p q : Row → Bool)
      → ((r : Row) → p r ≡ q r)
      → (rows : List Row)
      → update_where p (restart state) rows ≡ update_where q (restart state) rows
  unfolding update_where
  update_where-same p q same [] = refl
  update_where-same p q same (r ∷ rows) =
      rw (same r) (ap (λ rs. update_row q (restart state) r ∷ rs) (update_where-same p q same rows))

  nothing : (rows : List Row) → update_where (λ _. false) (restart state) rows ≡ rows
  unfolding update_where
  nothing [] = refl
  nothing (r ∷ rows) = ap (λ rs. r ∷ rs) (nothing rows)

  distributes : (a b t : Bool) → ((a && t) || (b && t)) ≡ ((a || b) && t)
  distributes a b t = ground arith

  -- Restarting the selected rows that pass a test one after the other restarts, at once, each row under
  -- a selected key that passes it.
  pub restart_each-eq :
      (test : Row → Bool) (selected rows : List Row)
      → restart_each state test rows selected
        ≡ update_where (λ r. is_selected selected r && test r) (restart state) rows
  unfolding restart_each
  restart_each-eq test [] rows = sym (nothing rows)
  restart_each-eq test (s ∷ selected) rows =
      restart_each-eq test selected
        (update_where (λ r. at s.board_id s.external_post_id r && test r) (restart state) rows)
      ∙ restart-twice (λ r. at s.board_id s.external_post_id r && test r)
          (λ r. is_selected selected r && test r) rows
      ∙ update_where-same _ (λ r. is_selected (s ∷ selected) r && test r)
          (λ r. distributes (at s.board_id s.external_post_id r) (is_selected selected r) (test r))
          rows
