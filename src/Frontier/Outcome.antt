-- ===== src/Frontier/Outcome.antt =====
-- What crawler/store.py does to a lease when a fetch ends: `_dead_code`, `_retry_capped`, and the
-- frontier part of `record_outcome`.
use re_dstm.Prelude.{
  ℕ, max, String, true, ◌&&◌, Option, none, some, Result, ◌>>=◌, leb, ltb, str_eq, text_in,
  if◌then◌else◌,
}
use re_dstm.Frontier.Table.{State, retry, dead, Archive, is_retry}
use re_dstm.Frontier.Clock.{DateTime, retry_backoff}
use re_dstm.Frontier.Lease.{Lease, transition_lease}
use re_dstm.Frontier.Seed.{capped_codes, origin_unresponsive}

-- REDSTM_FRONTIER_MAX_ATTEMPTS and REDSTM_NETWORK_MAX_ATTEMPTS
abbrev pub max_attempts : ℕ
max_attempts = 5

abbrev pub network_max_attempts : ℕ
network_max_attempts = 24

unfoldable pub dead_code : String → ℕ → Option String
dead_code error_code attempts =
    if text_in error_code capped_codes && leb max_attempts attempts
    then some error_code
    else if str_eq error_code "network_error" && leb network_max_attempts attempts
    then some origin_unresponsive
    else none

unfoldable pub retry_capped : Archive → Lease → String → DateTime → Result Archive
retry_capped a lease error_code at = elim (dead_code error_code lease.attempts) [
  | some code ↦ transition_lease a lease dead (some code) none
  | none ↦ do
    next ← retry_backoff (max lease.attempts 1) at
    transition_lease a lease retry (some error_code) (some next)
]

-- `max(next_attempt_at, retry_after_at.astimezone(UTC))`
abbrev pub later_of : DateTime → Option DateTime → DateTime
later_of t none = t
later_of t (some u) =
    if ltb t.micros u.micros then record { aware = true; micros = u.micros } else t

-- `error_code or ""`
abbrev pub or_empty : Option String → String
or_empty none = ""
or_empty (some c) = c

-- the block `if lease is not None` of `record_outcome`
unfoldable pub settle :
    Archive → Lease → State → Option String → DateTime → Option DateTime → Result Archive
settle a lease state error_code fetched_at retry_after_at =
    if is_retry state
    then elim (dead_code (or_empty error_code) lease.attempts) [
      | some code ↦ transition_lease a lease dead (some code) none
      | none ↦ do
        next ← retry_backoff lease.attempts fetched_at
        transition_lease a lease retry error_code (some (later_of next retry_after_at))
    ]
    else transition_lease a lease state error_code none
