-- ===== src/Frontier/Clock.antt =====
-- Times in crawler/frontier.py: a `datetime` and what is stored of it, and the retry backoff.
use re_dstm.Prelude.{
  ℕ, ◌+◌, ◌-◌, ◌*◌, ◌/◌, ◌^◌, min, Bool, true, Option, none, some, Result, ok, err, value_error,
  raise_if, ◌>>=◌, ◌>>◌, ltb, if◌then◌else◌,
}

-- `micros` is the instant in UTC that `astimezone(UTC)` gives; a naive datetime has no `tzinfo`.
pub record DateTime : Type 0 where
  pub aware : Bool
  pub micros : ℕ

abbrev pub micros_per_second : ℕ
micros_per_second = 1000000

-- `_timestamp`: the text with `timespec="seconds"`, which drops the microseconds
unfoldable pub timestamp : DateTime → Result ℕ
timestamp value =
    if value.aware
    then ok (value.micros / micros_per_second)
    else err (value_error "frontier timestamps must be timezone-aware")

-- `_timestamp(t) if t is not None else None`
unfoldable pub optional_timestamp : Option DateTime → Result (Option ℕ)
unfolding timestamp
optional_timestamp none = ok none
optional_timestamp (some t) = do s ← timestamp t; ok (some s)

-- `value.astimezone(UTC) + timedelta(seconds=seconds)`
abbrev pub after : DateTime → ℕ → DateTime
after value seconds = record { aware = true; micros = value.micros + seconds * micros_per_second }

abbrev pub backoff_base_seconds : ℕ
backoff_base_seconds = 120

abbrev pub backoff_cap_seconds : ℕ
backoff_cap_seconds = 6 * 60 * 60

unfoldable pub backoff_delay : ℕ → ℕ
backoff_delay attempts = min (backoff_base_seconds * 2 ^ (attempts - 1)) backoff_cap_seconds

unfoldable pub retry_backoff : ℕ → DateTime → Result DateTime
unfolding backoff_delay
retry_backoff attempts now = do
  raise_if (ltb attempts 1) (value_error "attempts must be positive")
  ok (after now (backoff_delay attempts))
