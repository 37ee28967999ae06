-- ===== src/Runner/Outage/Deadline.antt =====
-- How often a command waits out an outage before the deadline.
use Prim.Native.Nat.{zero, suc}
use re_dstm.Prelude.{
  ℕ, ◌+◌, ◌-◌, ◌*◌, ◌/◌, ◌≤◌, ◌<◌, min, ◌≡◌, refl, ap, inl, inr, Bool, false, Option, none, some,
  arith, ltb, Bool-cases,
}
use re_dstm.Runner.Outage.{
  OutagePolicy, outage_backoff_seconds, outage_deadline_seconds, entry, delay, since_or, wait,
  reset, sleep_from, backoff,
}

abbrev pub never_paused : ℕ → Bool
never_paused elapsed = false

-- The sleeps of an unpaused backoff add up, in as many rounds as cover what is left.
sleep_from-exact :
    (seconds rounds elapsed : ℕ)
    → seconds ≤ elapsed + 30 * rounds
    → sleep_from never_paused seconds rounds elapsed ≡ seconds - elapsed
unfolding sleep_from
sleep_from-exact seconds zero elapsed h = omega arith
sleep_from-exact seconds (suc rounds) elapsed h =
    omega (arith, sleep_from-exact seconds rounds (elapsed + 30) (omega arith))

-- A backoff that is not paused sleeps for its delay in full.
pub backoff-exact : (seconds : ℕ) → backoff never_paused seconds ≡ seconds
unfolding backoff
backoff-exact seconds =
    omega (arith, sleep_from-exact seconds ((seconds + 29) / 30) 0 (omega arith))

-- the delays of the first `n` waits
abbrev pub slept : ℕ → ℕ
slept zero = 0
slept (suc n) = slept n + delay n

abbrev past_six : ℕ → ℕ
past_six k = suc (suc (suc (suc (suc (suc k)))))

delay-top : (k : ℕ) → delay (past_six k) ≡ 600
unfolding delay entry
delay-top zero = refl
delay-top (suc k) = ap (entry outage_backoff_seconds) (last k)
  where
    last : (k : ℕ) → min (suc (past_six k)) 7 ≡ 7
    last k = omega arith

-- All but 1890 of `n` delays of 600 seconds are slept.
slept-past_six : (k : ℕ) → 600 * past_six k ≡ slept (past_six k) + 1890
unfolding delay entry
slept-past_six zero = refl
slept-past_six (suc k) = omega (arith, slept-past_six k, delay-top k)

slept-le : (n : ℕ) → 600 * n ≤ slept n + 1890
unfolding delay entry
slept-le zero = omega arith
slept-le (suc zero) = omega arith
slept-le (suc (suc zero)) = omega arith
slept-le (suc (suc (suc zero))) = omega arith
slept-le (suc (suc (suc (suc zero)))) = omega arith
slept-le (suc (suc (suc (suc (suc zero))))) = omega arith
slept-le (suc (suc (suc (suc (suc (suc k)))))) = omega (arith, slept-past_six k)

-- `Waiting n t p`: since its last reset the policy `p` has waited `n` times, without a pause, and the
-- last of the sleeps ended at `t`. The clock never shows 0.
pub data Waiting : ℕ → ℕ → OutagePolicy → Type 0 where
  unwaited : {t : ℕ} → 0 < t → Waiting 0 t reset
  waited :
      {n t now seconds : ℕ} {p : OutagePolicy}
      → Waiting n t p
      → t ≤ now
      → (wait p now).1 ≡ some seconds
      → Waiting (suc n) (now + backoff never_paused seconds) (wait p now).0

-- the sleeps since the outage began fit before `t`
abbrev SleepsFit : ℕ → ℕ → Option ℕ → Type 0
SleepsFit zero t none = 0 < t
SleepsFit zero t (some s) = ⊥
SleepsFit (suc n) t none = ⊥
SleepsFit (suc n) t (some s) = (0 < s) × (s + slept (suc n) ≤ t)

begun_at :
    (n t now : ℕ) (since : Option ℕ)
    → SleepsFit n t since
    → t ≤ now
    → (0 < since_or since now) × (since_or since now + slept n ≤ now)
unfolding since_or
begun_at zero t now none h le = (omega arith, omega arith)
begun_at zero t now (some s) h le = elim h [ ]
begun_at (suc n) t now none h le = elim h [ ]
begun_at (suc n) t now (some zero) h le = omega (arith, h.0)
begun_at (suc n) t now (some (suc s)) h le = (omega arith, omega (arith, h.1))

-- Within the deadline `wait` sleeps for the delay.
wait_in_time :
    (p : OutagePolicy) (now seconds : ℕ)
    → (wait p now).1 ≡ some seconds
    → (now - since_or p.since now ≤ outage_deadline_seconds)
      × ((wait p now).0 ≡ record { retries = suc p.retries; since = some (since_or p.since now) })
      × (seconds ≡ delay p.retries)
unfolding wait
wait_in_time p now seconds h =
    elim (Bool-cases (ltb outage_deadline_seconds (now - since_or p.since now))) [
      | inl late ↦ let none_left : none ≡ some seconds = rw late at h in cc
      | inr early ↦
          let left : some (delay p.retries) ≡ some seconds = rw early at h in
          rw early (in_time (now - since_or p.since now) early, refl, cc)
    ]
  where
    in_time : (k : ℕ) → ltb outage_deadline_seconds k ≡ false → k ≤ outage_deadline_seconds
    in_time k h = ground arith

-- what `Waiting` says of the policy
abbrev IsWaiting : ℕ → ℕ → OutagePolicy → Type 0
IsWaiting n t p = (p.retries ≡ n) × SleepsFit n t p.since

next :
    (n t now seconds : ℕ) (p : OutagePolicy)
    → IsWaiting n t p
    → t ≤ now
    → (wait p now).1 ≡ some seconds
    → (n ≤ 75) × IsWaiting (suc n) (now + backoff never_paused seconds) (wait p now).0
next n t now seconds p k le h =
    let base = begun_at n t now p.since k.1 le in
    let in_time = wait_in_time p now seconds h in
    let d : seconds ≡ delay n = rw (k.0) at in_time.2 in
    (
      omega (arith, base.1, in_time.0, slept-le n),
      rw (in_time.1) (ap suc k.0, (base.0, omega (arith, base.1, d, backoff-exact seconds))),
    )

Waiting-IsWaiting : (n t : ℕ) (p : OutagePolicy) → Waiting n t p → IsWaiting n t p × (n ≤ 76)
Waiting-IsWaiting n t p (unwaited pos) = ((refl, pos), omega arith)
Waiting-IsWaiting (suc n) t' p' (waited {t = t} {now = now} {seconds = seconds} {p = p} w le h) =
    let k = Waiting-IsWaiting n t p w in
    let s = next n t now seconds p k.0 le h in (s.1, omega (arith, s.0))

-- Between two resets of its policy, a command whose sleeps are not cut short by the pause file and
-- whose clock never shows 0 waits for the origin at most 76 times.
pub Waiting-bounded : (n t : ℕ) (p : OutagePolicy) → Waiting n t p → n ≤ 76
Waiting-bounded n t p w = (Waiting-IsWaiting n t p w).1
