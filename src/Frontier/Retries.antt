-- ===== src/Frontier/Retries.antt =====
-- How often and how late a failed post is tried again: the backoff, the attempt budgets, and the
-- row that a failed fetch leaves.
use native.Mathlib.Nat.{pow-succ', one-le-pow}
use re_dstm.Prelude.{
  ℕ, zero, suc, ◌+◌, ◌-◌, ◌*◌, ◌/◌, ◌^◌, ◌≤◌, min, max, ◌<◌, String, ◌≡◌, ◌≢◌, refl, inl, inr, ◌⊎◌,
  Bool, true, false, ◌&&◌, ◌||◌, sym, ◌∙◌, Option, none, some, arith, ok, err, value_error, ◌>>=◌,
  raise_if, str_eq, str_eq_iff, text_in, ltb, leb, Bool-cases, if◌then◌else◌,
}
use re_dstm.Frontier.Table.{retry, dead, running, Row, Archive}
use re_dstm.Frontier.Clock.{
  DateTime, after, backoff_delay, backoff_base_seconds, backoff_cap_seconds, retry_backoff,
  micros_per_second, optional_timestamp,
}
use re_dstm.Frontier.Seed.{capped_codes, origin_unresponsive}
use re_dstm.Frontier.Lease.{Lease}
use re_dstm.Frontier.Outcome.{dead_code, settle, later_of, or_empty}
use re_dstm.Frontier.Ops.WellFormed.{Good}
use re_dstm.Frontier.Lifecycle.{row_of, transition_lease-exact, Leaves}

doubles : (p : ℕ) → min (120 * (2 * p)) 21600 ≡ min (2 * min (120 * p) 21600) 21600
doubles p = omega arith

base_least : (p : ℕ) → 1 ≤ p → 120 ≤ min (120 * p) 21600
base_least p h = omega arith

-- The retry delay after attempt n, from 1 on, is 120 seconds for the first, twice the last one for
-- each further, and never more than six hours; it is what `retry_backoff` adds to the clock, which
-- raises for attempt 0.
pub retry_backoff-exact :
    (n : ℕ) (now : DateTime)
    → (retry_backoff 0 now ≡ err (value_error "attempts must be positive"))
      × (retry_backoff (suc n) now ≡ ok (after now (backoff_delay (suc n))))
      × (backoff_delay 1 ≡ backoff_base_seconds)
      × (backoff_delay (suc (suc n)) ≡ min (2 * backoff_delay (suc n)) backoff_cap_seconds)
      × (backoff_base_seconds ≤ backoff_delay (suc n))
      × (backoff_delay (suc n) ≤ backoff_cap_seconds)
unfolding retry_backoff backoff_delay ◌>>=◌ raise_if
retry_backoff-exact n now = (
  refl,
  rw positive,
  refl,
  rw (pred_suc (suc n)) (rw (pred_suc n) (rw (pow-succ' 2 n) (doubles (2 ^ n)))),
  rw (pred_suc n) (base_least (2 ^ n) (one-le-pow n 2 (omega arith))),
  omega arith,
)
  where
    positive : ltb (suc n) 1 ≡ false
    positive = ground arith

    pred_suc : (m : ℕ) → suc m - 1 ≡ m
    pred_suc m = omega arith

-- A parser or storage failure is retried until its fifth attempt, and then ends under its own code; a
-- network failure is retried until its 24th, and then ends as origin_unresponsive; every other
-- failure is retried for ever.
dead_code-exact :
    (code : String) (attempts : ℕ)
    → (text_in code capped_codes ≡ true
        → dead_code code attempts ≡ (if ltb attempts 5 then none else some code))
      × (code ≡ "network_error"
          → dead_code code attempts ≡ (if ltb attempts 24 then none else some origin_unresponsive))
      × (text_in code capped_codes ≡ false
          → code ≢ "network_error"
          → dead_code code attempts ≡ none)
unfolding dead_code
dead_code-exact code attempts = (
  λ capped. rw capped (capped_case (text_in code capped_codes)),
  λ e. rw e (ground arith),
  λ free other. rw free (other_case (Bool-cases (str_eq code "network_error")) other),
)
  where
    capped_case :
        (b : Bool)
        → (if leb 5 attempts
            then some code
            else if str_eq code "network_error" && leb 24 attempts
            then some origin_unresponsive
            else none)
          ≡ (if ltb attempts 5 then none else some code)
    capped_case b = ground arith

    other_case :
        (str_eq code "network_error" ≡ true) ⊎ (str_eq code "network_error" ≡ false)
        → code ≢ "network_error"
        → (if str_eq code "network_error" && leb 24 attempts
            then some origin_unresponsive
            else none)
          ≡ none
    other_case (inl y) o = absurd (o ((str_eq_iff code "network_error").0 y))
    other_case (inr n) o = rw n

-- the instant of the next attempt
abbrev pub next_try : Lease → DateTime → Option DateTime → DateTime
next_try lease fetched_at retry_after_at =
    later_of (after fetched_at (backoff_delay lease.attempts)) retry_after_at

next_try_stored :
    (t : DateTime) (u : Option DateTime)
    → t.aware ≡ true
    → optional_timestamp (some (later_of t u))
      ≡ ok (some ((later_of t u).micros / micros_per_second))
unfolding optional_timestamp ◌>>=◌
next_try_stored t none h = rw h
next_try_stored t (some u) h = ground arith

backoff_ok :
    (n : ℕ) (now : DateTime) → 1 ≤ n → retry_backoff n now ≡ ok (after now (backoff_delay n))
backoff_ok zero now h = absurd (omega arith)
backoff_ok (suc n) now h = (retry_backoff-exact n now).1

-- the microseconds of the time that the server asked for, if any
abbrev pub asked_micros : Option DateTime → ℕ
asked_micros none = 0
asked_micros (some u) = u.micros

-- The next try is at the later of two times.
next_try-max :
    (lease : Lease) (fetched_at : DateTime) (asked : Option DateTime)
    → (next_try lease fetched_at asked).micros
      ≡ max
          (fetched_at.micros + backoff_delay lease.attempts * micros_per_second)
          (asked_micros asked)
next_try-max lease fetched_at none = omega arith
next_try-max lease fetched_at (some v) = ground arith

-- the codes of failures that are of the parser or the storage
abbrev pub is_own_fault : String → Bool
is_own_fault c =
    str_eq c "incomplete_comments" || str_eq c "parse_drift" || str_eq c "storage_error"

own_fault_capped : (c : String) → is_own_fault c ≡ text_in c capped_codes
own_fault_capped c = ground arith

-- The attempt budget of the failure is not used up.
abbrev pub MayRetry : Option String → ℕ → Type 0
MayRetry none attempts = Unit {0}
MayRetry (some c) attempts =
    (is_own_fault c ≡ true → attempts < 5) × (c ≡ "network_error" → attempts < 24)

no_code : (attempts : ℕ) → dead_code "" attempts ≡ none
unfolding dead_code
no_code attempts = refl

own_fault_dead : (c : String) (n : ℕ) → is_own_fault c ≡ true → 5 ≤ n → dead_code c n ≡ some c
own_fault_dead c n own many =
    (dead_code-exact c n).0 (sym (own_fault_capped c) ∙ own) ∙ used (ltb n 5) (ground arith)
  where
    used : (b : Bool) → b ≡ false → (if b then none else some c) ≡ some c
    used b e = rw e

network_dead : (n : ℕ) → 24 ≤ n → dead_code "network_error" n ≡ some "origin_unresponsive"
network_dead n many = (dead_code-exact "network_error" n).1 refl ∙ used (ltb n 24) (ground arith)
  where
    used :
        (b : Bool)
        → b ≡ false
        → (if b then none else some origin_unresponsive) ≡ some origin_unresponsive
    used b e = rw e

may_retry : (code : Option String) (n : ℕ) → MayRetry code n → dead_code (or_empty code) n ≡ none
may_retry none n h = no_code n
may_retry (some c) n h = elim (Bool-cases (is_own_fault c)) [
  | inl own ↦ (dead_code-exact c n).0 (sym (own_fault_capped c) ∙ own) ∙ within (some c) 5 (h.0 own)
  | inr free ↦ elim (Bool-cases (str_eq c "network_error")) [
    | inl y ↦
        let e : c ≡ "network_error" = (str_eq_iff c "network_error").0 y in
        (dead_code-exact c n).1 e ∙ within (some origin_unresponsive) 24 (h.1 e)
    | inr m ↦ (dead_code-exact c n).2 (sym (own_fault_capped c) ∙ free) (λ e. other (rw e at m))
  ]
]
  where
    within : (x : Option String) (most : ℕ) → n < most → (if ltb n most then none else x) ≡ none
    within x most h = rw (below most h)
      where
        below : (most : ℕ) → n < most → ltb n most ≡ true
        below most h = ground arith

    other : str_eq "network_error" "network_error" ≡ false → ⊥
    other e = cc

-- The next try in whole seconds: the later of the end of the backoff and the time that the server asked
-- for.
abbrev pub next_second : Lease → DateTime → Option DateTime → ℕ
next_second lease fetched_at asked =
    max (fetched_at.micros + backoff_delay lease.attempts * micros_per_second) (asked_micros asked)
    / micros_per_second

-- A failed fetch of a post that runs under the lease's token, on a well-formed frontier, at an attempt
-- from 1 on. A failure of the parser or the storage at attempt 5 or later ends the post as dead under its
-- own code; a network failure at attempt 24 or later ends it as dead under origin_unresponsive; and any
-- other failure, or an earlier one, leaves it waiting under its code, for the end of the backoff or
-- the time that the server asked for, whichever is later. No other post's row is changed.
pub settle-exact :
    (a : Archive) (lease : Lease) (code : Option String) (fetched_at : DateTime)
    (retry_after_at : Option DateTime) (r : Row)
    → Good a
    → row_of a lease ≡ some r
    → r.state ≡ running
    → r.lease_token ≡ some lease.lease_token
    → 1 ≤ lease.attempts
    → ((c : String)
        → code ≡ some c
        → is_own_fault c ≡ true
        → 5 ≤ lease.attempts
        → Leaves
            (settle a lease retry code fetched_at retry_after_at)
            a
            lease
            dead
            none
            (some c)
            r.expected_comment_count
            r)
      × (code ≡ some "network_error"
          → 24 ≤ lease.attempts
          → Leaves
              (settle a lease retry code fetched_at retry_after_at)
              a
              lease
              dead
              none
              (some "origin_unresponsive")
              r.expected_comment_count
              r)
      × (MayRetry code lease.attempts
          → Leaves
              (settle a lease retry code fetched_at retry_after_at)
              a
              lease
              retry
              (some (next_second lease fetched_at retry_after_at))
              code
              r.expected_comment_count
              r)
unfolding settle ◌>>=◌
settle-exact a lease code fetched_at retry_after_at r w e runs token tried = (
  λ c is own many. ends c (rw is (own_fault_dead c lease.attempts own many)),
  λ is many. ends "origin_unresponsive" (rw is (network_dead lease.attempts many)),
  λ may. waits (may_retry code lease.attempts may),
)
  where
    ends :
        (c : String)
        → dead_code (or_empty code) lease.attempts ≡ some c
        → Leaves
            (settle a lease retry code fetched_at retry_after_at)
            a
            lease
            dead
            none
            (some c)
            r.expected_comment_count
            r
    ends c d = rw d (
        (transition_lease-exact a lease dead (some c) none none w refl
            (unfold optional_timestamp in refl)).0
          r e runs token)

    waits :
        dead_code (or_empty code) lease.attempts ≡ none
        → Leaves
            (settle a lease retry code fetched_at retry_after_at)
            a
            lease
            retry
            (some (next_second lease fetched_at retry_after_at))
            code
            r.expected_comment_count
            r
    waits d =
        rw
          (
            d,
            backoff_ok lease.attempts fetched_at tried,
            ← next_try-max lease fetched_at retry_after_at,
          )
          ((transition_lease-exact a lease retry code
              (some (next_try lease fetched_at retry_after_at)) _ w refl
              (next_try_stored _ retry_after_at refl)).0
            r e runs token)
