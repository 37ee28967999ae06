-- ===== src/Frontier/Lifecycle.antt =====
-- How a lease ends: what `complete_lease` and `transition_lease` leave of the row of a post that runs
-- under the lease's token, and that they raise for any other.
use re_dstm.Prelude.{
  ap, pos, negsuc, Result, coalesce, str_eq_refl, ℕ, ℤ, String, ◌≡◌, refl, ◌∙◌, Bool, true, false,
  not, ◌&&◌, ◌||◌, is_none, is_some, Option, none, some, arith, Error, ok, err, runtime_error,
  ◌>>=◌, raise_if, ◌==◌, is_text, count, find, map_row, update_row, update_where,
}
use re_dstm.Frontier.Table.{State, running, done, is_running, is_retry, Archive, Row, at}
use re_dstm.Frontier.Clock.{DateTime, optional_timestamp}
use re_dstm.Frontier.Keys.{KeepsKey, find_at, find_at-update_where, count_at, passes}
use re_dstm.Frontier.Lease.{
  Lease, held_by, release, is_terminal, transition_lease, finish, as_count, is_bad_count,
  complete_lease,
}
use re_dstm.Frontier.Effects.{SamePost, IsEnded, IsLocal, find_other}
use re_dstm.Frontier.Ops.WellFormed.{Good}

-- the row of the lease's post
abbrev pub row_of : Archive → Lease → Option Row
row_of a lease = find (at lease.board_id lease.external_post_id) a.frontier

abbrev pub holds_token : Lease → Option Row → Bool
holds_token lease none = false
holds_token lease (some r) = is_running r.state && is_text r.lease_token lease.lease_token

-- The row count that the code tests is 1 just when the post runs under the lease's token.
count-held_by :
    (a : Archive) (lease : Lease)
    → Good a
    → (count (held_by lease) a.frontier == 1) ≡ holds_token lease (row_of a lease)
count-held_by a lease w =
    rw
      (count_at lease.board_id lease.external_post_id
        (λ r. is_running r.state && is_text r.lease_token lease.lease_token) a.frontier w.unique)
      (one (row_of a lease))
  where
    one :
        (o : Option Row)
        → (passes (λ r. is_running r.state && is_text r.lease_token lease.lease_token) o == 1)
          ≡ holds_token lease o
    one none = refl
    one (some r) = ground arith

abbrev stale : Error
stale = runtime_error "stale or missing frontier lease"

-- What an assignment to the rows that hold the lease does to the row of its post.
held_by-row :
    (f : Row → Row) (k : KeepsKey f) (a : Archive) (lease : Lease)
    → holds_token lease (row_of a lease) ≡ true
    → find (at lease.board_id lease.external_post_id) (update_where (held_by lease) f a.frontier)
      ≡ map_row f (row_of a lease)
held_by-row f k a lease holds =
    find_at-update_where f k (held_by lease) lease.board_id lease.external_post_id a.frontier
    ∙ updated (row_of a lease) refl holds
  where
    updated :
        (o : Option Row)
        → row_of a lease ≡ o
        → holds_token lease o ≡ true
        → map_row (update_row (held_by lease) f) o ≡ map_row f o
    updated none e h = refl
    updated (some r) e h = rw (find_at lease.board_id lease.external_post_id a.frontier r e) (rw h)

-- What the calls give, by whether the post runs under the lease's token.
complete_lease_result :
    (a : Archive) (lease : Lease) (comments : Option ℤ)
    → Good a
    → is_bad_count comments ≡ false
    → (holds_token lease (row_of a lease) ≡ true
        → complete_lease a lease comments
          ≡ ok (record a {
            frontier = update_where (held_by lease) (finish (as_count comments)) a.frontier;
          }))
      × (holds_token lease (row_of a lease) ≡ false → complete_lease a lease comments ≡ err stale)
unfolding complete_lease ◌>>=◌ raise_if
complete_lease_result a lease comments w fine = (
  λ holds. rw fine (rw (count-held_by a lease w ∙ holds)),
  λ lost. rw fine (rw (count-held_by a lease w ∙ lost)),
)

abbrev allowed : State → Option DateTime → Bool
allowed state next = is_terminal state && (is_retry state || is_none next)

transition_lease_result :
    (a : Archive) (lease : Lease) (state : State) (code : Option String) (next : Option DateTime)
    (stored : Option ℕ)
    → Good a
    → allowed state next ≡ true
    → optional_timestamp next ≡ ok stored
    → (holds_token lease (row_of a lease) ≡ true
        → transition_lease a lease state code next
          ≡ ok (record a {
            frontier = update_where (held_by lease) (release state stored code) a.frontier;
          }))
      × (holds_token lease (row_of a lease) ≡ false
          → transition_lease a lease state code next ≡ err stale)
unfolding transition_lease ◌>>=◌ raise_if
transition_lease_result a lease state code next stored w fine t = (
  λ holds. rw guards.0 (rw guards.1 (rw t (rw (count-held_by a lease w ∙ holds)))),
  λ lost. rw guards.0 (rw guards.1 (rw t (rw (count-held_by a lease w ∙ lost)))),
)
  where
    guards : (is_terminal state ≡ true) × ((not (is_retry state) && is_some next) ≡ false)
    guards = (ground arith, ground arith)

-- A row that runs under the token is what the code looks for.
holding :
    (a : Archive) (lease : Lease) (r : Row)
    → row_of a lease ≡ some r
    → r.state ≡ running
    → r.lease_token ≡ some lease.lease_token
    → holds_token lease (row_of a lease) ≡ true
holding a lease r e runs token = rw (e, runs, token) (str_eq_refl lease.lease_token)

-- An update of the row that holds the lease touches no other.
held_by-IsLocal :
    (f : Row → Row) (k : KeepsKey f) (a : Archive) (lease : Lease)
    → IsLocal lease.board_id lease.external_post_id a
        (record a { frontier = update_where (held_by lease) f a.frontier })
held_by-IsLocal f k a lease = record {
  others = λ b' i' s e other.
      find_other f k lease.board_id lease.external_post_id
        (λ r. is_running r.state && is_text r.lease_token lease.lease_token) b' i' a.frontier s e
        other;
  same_boards = refl;
  same_posts = refl;
}

-- the comment count of a row after a call that was given a count or none
abbrev pub counted : Option ℤ → Option ℕ → Option ℕ
counted (some (pos n)) old = some n
counted _ old = old

-- what the end of a lease leaves of a row
abbrev pub Leaves :
    Result Archive → Archive → Lease → State → Option ℕ → Option String → Option ℕ → Row → Type 0
Leaves result a lease state next code comments r =
    (a' : Archive) × (r' : Row) × (result ≡ ok a')
    × (row_of a' lease ≡ some r')
    × IsEnded state next code comments r r'
    × IsLocal lease.board_id lease.external_post_id a a'

-- the end of a lease from what the call gives
leaves :
    (f : Row → Row) (k : KeepsKey f) (result : Result Archive) (a : Archive) (lease : Lease)
    (state : State) (next : Option ℕ) (code : Option String) (comments : Option ℕ) (r : Row)
    → row_of a lease ≡ some r
    → holds_token lease (row_of a lease) ≡ true
    → result ≡ ok (record a { frontier = update_where (held_by lease) f a.frontier })
    → IsEnded state next code comments r (f r)
    → Leaves result a lease state next code comments r
leaves f k result a lease state next code comments r e holds given ended = (
  record a { frontier = update_where (held_by lease) f a.frontier },
  f r,
  given,
  held_by-row f k a lease holds ∙ ap (map_row f) e,
  ended,
  held_by-IsLocal f k a lease,
)

count_finish :
    (comments : Option ℤ) (old : Option ℕ)
    → is_bad_count comments ≡ false
    → coalesce (as_count comments) old ≡ counted comments old
count_finish none old h = refl
count_finish (some (pos n)) old h = refl
count_finish (some (negsuc n)) old h = cc

-- Ending a lease as done, on a well-formed frontier and with a count that is no negative number. If the
-- post runs under the lease's token, its row becomes done, loses lease, error and retry time, and takes
-- the comment count if one is given; no other row is changed. If it does not, the call raises.
pub complete_lease-exact :
    (a : Archive) (lease : Lease) (comments : Option ℤ)
    → Good a
    → is_bad_count comments ≡ false
    → ((r : Row)
        → row_of a lease ≡ some r
        → r.state ≡ running
        → r.lease_token ≡ some lease.lease_token
        → Leaves
            (complete_lease a lease comments)
            a
            lease
            done
            none
            none
            (counted comments r.expected_comment_count)
            r)
      × (holds_token lease (row_of a lease) ≡ false → complete_lease a lease comments ≡ err stale)
complete_lease-exact a lease comments w fine = (
  λ r e runs token.
      let holds = holding a lease r e runs token in
      leaves (finish (as_count comments)) (record { board = λ r. refl; post = λ r. refl }) _ a lease
        done none none _ r e holds ((complete_lease_result a lease comments w fine).0 holds)
        (record {
          post = same r;
          state_is = refl;
          next_is = refl;
          code_is = refl;
          comments_is = count_finish comments r.expected_comment_count fine;
          no_token = refl;
          no_expiry = refl;
          same_attempts = refl;
          same_tried = refl;
        }),
  (complete_lease_result a lease comments w fine).1,
)
  where
    same : (r : Row) → SamePost r (finish (as_count comments) r)
    same r = record {
      same_rowid = refl;
      same_board = refl;
      same_post = refl;
      same_url = refl;
      same_priority = refl;
      same_listing = refl;
    }

-- Ending a lease in a given state: likewise, for the states done, retry and dead, where a retry time
-- is given for retry alone and is aware. The row takes the state, the error code and the retry time.
pub transition_lease-exact :
    (a : Archive) (lease : Lease) (state : State) (code : Option String) (next : Option DateTime)
    (stored : Option ℕ)
    → Good a
    → allowed state next ≡ true
    → optional_timestamp next ≡ ok stored
    → ((r : Row)
        → row_of a lease ≡ some r
        → r.state ≡ running
        → r.lease_token ≡ some lease.lease_token
        → Leaves
            (transition_lease a lease state code next)
            a
            lease
            state
            stored
            code
            r.expected_comment_count
            r)
      × (holds_token lease (row_of a lease) ≡ false
          → transition_lease a lease state code next ≡ err stale)
transition_lease-exact a lease state code next stored w fine t = (
  λ r e runs token.
      let holds = holding a lease r e runs token in
      leaves (release state stored code) (record { board = λ r. refl; post = λ r. refl }) _ a lease
        state stored code _ r e holds
        ((transition_lease_result a lease state code next stored w fine t).0 holds)
        (record {
          post = same r;
          state_is = refl;
          next_is = refl;
          code_is = refl;
          comments_is = refl;
          no_token = refl;
          no_expiry = refl;
          same_attempts = refl;
          same_tried = refl;
        }),
  (transition_lease_result a lease state code next stored w fine t).1,
)
  where
    same : (r : Row) → SamePost r (release state stored code r)
    same r = record {
      same_rowid = refl;
      same_board = refl;
      same_post = refl;
      same_url = refl;
      same_priority = refl;
      same_listing = refl;
    }
