-- ===== src/Frontier/Revisiting.antt =====
-- What `requeue_stale_details` of crawler/frontier.py gives and leaves.
use re_dstm.Prelude.{
  ℕ, min, String, ◌≡◌, refl, ap, ◌∙◌, Bool, true, false, ◌&&◌, Option, none, some, List, [], ◌∷◌,
  map, arith, ok, ◌>>=◌, raise_if, ltb, due_by, All, All-imp, All-and, All-filter, All-take,
  filter_passes, length, length-take, length-filter, take, filter, count, find, map_row, update_row,
}
use re_dstm.Prelude.Sorting.{sort, length-sort, All-sort}
use re_dstm.Frontier.Table.{
  State, pending, running, retry, done, dead, Row, Archive, is_done, at, enabled, on_board,
}
use re_dstm.Frontier.Clock.{DateTime, timestamp}
use re_dstm.Frontier.Keys.{UniqueKeys, Itself, All-Itself, at_self, find_at-update_where}
use re_dstm.Frontier.Effects.{SamePost}
use re_dstm.Frontier.Requeue.{
  key_of, restart, restart_each, is_selected, is_stale, by_detail_time, detail_time,
  requeue_stale_details,
}
use re_dstm.Frontier.Restarting.{restart_each-eq}

-- Each selected row is under a selected key.
selected_itself : (rows : List Row) → All (λ r. is_selected rows r ≡ true) rows
selected_itself [] = tt
selected_itself (r ∷ rows) = (
  rw (at_self r),
  All-imp (λ s. is_selected rows s ≡ true) (λ s. is_selected (r ∷ rows) s ≡ true)
      (λ s h. ground (arith, h)) rows (selected_itself rows),
)

-- The row is due for a revisit: it is done, on the board that was asked for and on none that is
-- disabled, and its post was collected by the cutoff.
pub record IsStale (a : Archive) (cutoff : ℕ) (board : Option String) (r : Row) : Type 0 where
  pub finished : r.state ≡ done
  pub on_enabled : enabled a.boards r.board_id ≡ true
  pub asked : on_board board r ≡ true
  pub old : due_by (detail_time a.posts r) cutoff ≡ true

-- the same as a test
abbrev pub awaits_revisit : Archive → ℕ → Option String → Row → Bool
awaits_revisit a cutoff board r =
    (is_done r.state && due_by (detail_time a.posts r) cutoff)
    && (on_board board r && enabled a.boards r.board_id)

-- The row `r'` is the row `r` begun anew.
pub record IsRestarted (state : State) (r r' : Row) : Type 0 where
  pub post : SamePost r r'
  pub state_is : r'.state ≡ state
  pub untried : r'.attempts ≡ 0
  pub at_once : r'.next_attempt_at ≡ none
  pub no_error : r'.last_error_code ≡ none
  pub no_token : r'.lease_token ≡ none
  pub no_expiry : r'.lease_expires_at ≡ none
  pub same_tried : r'.last_attempt_at ≡ r.last_attempt_at
  pub same_expected : r'.expected_comment_count ≡ r.expected_comment_count

restart-IsRestarted : (state : State) (r : Row) → IsRestarted state r (restart state r)
restart-IsRestarted state r = record {
  post = record {
    same_rowid = refl;
    same_board = refl;
    same_post = refl;
    same_url = refl;
    same_priority = refl;
    same_listing = refl;
  };
  state_is = refl;
  untried = refl;
  at_once = refl;
  no_error = refl;
  no_token = refl;
  no_expiry = refl;
  same_tried = refl;
  same_expected = refl;
}

is_done-eq : (s : State) → is_done s ≡ true → s ≡ done
is_done-eq done h = refl
is_done-eq pending h = cc
is_done-eq running h = cc
is_done-eq retry h = cc
is_done-eq dead h = cc

module _ (a : Archive) (limit cutoff : ℕ) (board : Option String) where
  abbrev stale : List Row
  stale =
      take limit
        (sort (by_detail_time a.posts) (filter (is_stale a.boards a.posts cutoff board) a.frontier))

  abbrev left : List Row
  left = restart_each pending (λ r. is_done r.state) a.frontier stale

  is_stale-IsStale :
      (r : Row) → is_stale a.boards a.posts cutoff board r ≡ true → IsStale a cutoff board r
  unfolding is_stale
  is_stale-IsStale r h = record {
    finished = is_done-eq r.state (ground arith);
    on_enabled = ground arith;
    asked = ground arith;
    old = ground arith;
  }

  -- what a selected row is, and what stands in its place after the call
  abbrev pub IsRevisited : Archive → Row → Type 0
  IsRevisited a' r =
      IsStale a cutoff board r
      × Itself a.frontier r
      × (r' : Row) × (find (at r.board_id r.external_post_id) a'.frontier ≡ some r')
      × IsRestarted pending r r'

  found_left :
      (b : String) (i : ℕ) (r : Row)
      → find (at b i) a.frontier ≡ some r
      → find (at b i) left
        ≡ some (update_row (λ x. is_selected stale x && is_done x.state) (restart pending) r)
  found_left b i r e =
      ap (λ rows. find (at b i) rows)
        (restart_each-eq pending (λ x. is_done x.state) stale a.frontier)
      ∙ find_at-update_where (restart pending) (record { board = λ r. refl; post = λ r. refl }) _ b
          i a.frontier
      ∙ ap (map_row (update_row (λ x. is_selected stale x && is_done x.state) (restart pending))) e

  is_stale-eq :
      (r : Row) → is_stale a.boards a.posts cutoff board r ≡ awaits_revisit a cutoff board r
  unfolding is_stale
  is_stale-eq r = ground arith

  count-is_stale :
      (rows : List Row)
      → count (is_stale a.boards a.posts cutoff board) rows
        ≡ count (awaits_revisit a cutoff board) rows
  count-is_stale [] = refl
  count-is_stale (r ∷ rows) = rw (is_stale-eq r, count-is_stale rows)

  length-stale : length stale ≡ min limit (count (awaits_revisit a cutoff board) a.frontier)
  length-stale =
      length-take limit _
      ∙ ap (min limit) (
          length-sort _ (filter (is_stale a.boards a.posts cutoff board) a.frontier)
          ∙ length-filter (is_stale a.boards a.posts cutoff board) a.frontier
          ∙ count-is_stale a.frontier)

  revisited :
      (r : Row)
      → (IsStale a cutoff board r × Itself a.frontier r) × (is_selected stale r ≡ true)
      → IsRevisited (record a { frontier = left }) r
  revisited r h = (
    h.0.0,
    h.0.1,
    restart pending r,
    found_left r.board_id r.external_post_id r h.0.1 ∙ rw (h.1, h.0.0.finished),
    restart-IsRestarted pending r,
  )

  stale-IsStale :
      UniqueKeys a.frontier → All (λ r. IsStale a cutoff board r × Itself a.frontier r) stale
  stale-IsStale u = All-take _ limit _ (
      All-sort _ _ _ (
        All-and (IsStale a cutoff board) (Itself a.frontier) _
          (All-imp _ (IsStale a cutoff board) is_stale-IsStale _
            (filter_passes (is_stale a.boards a.posts cutoff board) a.frontier))
          (All-filter (Itself a.frontier) (is_stale a.boards a.posts cutoff board) a.frontier
            (All-Itself a.frontier u))))

  -- `requeue_stale_details` of at least one post, from a table with its primary key and with an aware
  -- cutoff: as many posts as are due for a revisit, up to the limit. Each of them is due for it and
  -- now waits without a lease, an error, a retry time or an attempt, and the row of every other post is
  -- as it was.
  pub requeue_stale_details-exact :
      (stale_before : DateTime)
      → UniqueKeys a.frontier
      → ltb limit 1 ≡ false
      → timestamp stale_before ≡ ok cutoff
      → (chosen : List Row) × (a' : Archive) × (requeue_stale_details a limit stale_before board
          ≡ ok (map key_of chosen, a'))
        × (length chosen ≡ min limit (count (awaits_revisit a cutoff board) a.frontier))
        × All (IsRevisited a') chosen
        × ((b : String) (i : ℕ) (s : Row)
            → find (at b i) a.frontier ≡ some s
            → is_selected chosen s ≡ false
            → find (at b i) a'.frontier ≡ some s)
  unfolding requeue_stale_details ◌>>=◌ raise_if
  requeue_stale_details-exact stale_before u positive e = (
    stale,
    record a { frontier = left },
    rw positive (rw e),
    length-stale,
    All-imp _ (IsRevisited (record a { frontier = left })) revisited stale
        (All-and _ _ stale (stale-IsStale u) (selected_itself stale)),
    λ b i s found out. found_left b i s found ∙ rw out,
  )
