-- ===== src/Runner/Outage.antt =====
-- `_OutagePolicy` and `_backoff` in scripts/control_runner.py: how long a command waits for the origin.
-- A clock reading is in whole seconds. The calls that `_backoff` makes beside its sleep, of the marker,
-- the store and the heartbeat, do not change what is modelled.
pub mod Deadline
use Prim.Native.Nat.{zero, suc}
use re_dstm.Prelude.{
  ℕ, ◌+◌, ◌-◌, ◌/◌, min, Bool, true, Option, none, some, List, [], ◌∷◌, ltb, if◌then◌else◌, length,
}

-- REDSTM_FULL_CATALOG_OUTAGE_BACKOFF_SECONDS and REDSTM_OUTAGE_DEADLINE_SECONDS of crawler/settings.py
abbrev pub outage_backoff_seconds : List ℕ
outage_backoff_seconds = 90 ∷ 180 ∷ 300 ∷ 300 ∷ 420 ∷ 420 ∷ 600 ∷ 600 ∷ []

abbrev pub outage_deadline_seconds : ℕ
outage_deadline_seconds = 43200

pub record OutagePolicy : Type 0 where
  pub retries : ℕ
  pub since : Option ℕ

-- `backoff[i]`, which is 0 past the end; `delay` stays before it
unfoldable pub entry : List ℕ → ℕ → ℕ
entry [] i = 0
entry (x ∷ xs) zero = x
entry (x ∷ xs) (suc i) = entry xs i

unfoldable pub delay : ℕ → ℕ
delay retries = entry outage_backoff_seconds (min retries (length outage_backoff_seconds - 1))

-- `self.since or now`: a reading of 0 is false, as None is
unfoldable pub since_or : Option ℕ → ℕ → ℕ
since_or none now = now
since_or (some zero) now = now
since_or (some (suc n)) now = suc n

-- The policy after a call at `now`, and the seconds that it sleeps; there are none past the deadline,
-- where the call answers False.
unfoldable pub wait : OutagePolicy → ℕ → OutagePolicy × Option ℕ
wait p now =
    let since = since_or p.since now in
    if ltb outage_deadline_seconds (now - since)
    then (record p { since = some since }, none)
    else (record { retries = suc p.retries; since = some since }, some (delay p.retries))

abbrev pub reset : OutagePolicy
reset = record { retries = 0; since = none }

-- The seconds that `_backoff` sleeps from `elapsed` on, in so many rounds; `paused` says of each round
-- whether the pause file is there.
unfoldable pub sleep_from : (ℕ → Bool) → ℕ → ℕ → ℕ → ℕ
sleep_from paused seconds zero elapsed = 0
sleep_from paused seconds (suc rounds) elapsed =
    let rest = sleep_from paused seconds rounds (elapsed + 30) in
    if paused elapsed then 0 else min 30 (seconds - elapsed) + rest

-- `range(0, seconds, 30)` has `(seconds + 29) / 30` members.
unfoldable pub backoff : (ℕ → Bool) → ℕ → ℕ
backoff paused seconds = sleep_from paused seconds ((seconds + 29) / 30) 0
