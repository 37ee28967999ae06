-- ===== src/Crawl/Session.antt =====
-- `_session_status` of scripts/crawl_cycle.py, and for which answers of the site it gives up.
use re_dstm.Prelude.{
  ℕ, zero, suc, ◌+◌, ◌<◌, ◌≡◌, ◌⊎◌, inl, inr, refl, Bool, true, false, Option, none, some,
  if◌then◌else◌, ap, arith, ◌∙◌,
}

-- how a validation of the session ends: well, in SessionNetworkError, in
-- AutomaticLoginThrottleError, or in another of the errors that are caught
pub data Check : Type 0 where
  valid no_network throttled refused : Check

pub data Status : Type 0 where
  site_unreachable auth_failed : Status

-- REDSTM_SESSION_PREFLIGHT_ATTEMPTS
abbrev pub preflight_attempts : ℕ
preflight_attempts = 3

-- The loop, with so many attempts left: `checks` is what the attempts give, and the flag is
-- `network_failed`. With none left the code cannot be.
unfoldable pub status_from : (ℕ → Check) → ℕ → ℕ → Bool → Option Status
status_from checks zero attempt failed = some site_unreachable
status_from checks (suc left) attempt failed =
    let rest = status_from checks left (suc attempt) true in
    elim (checks attempt) [
      | valid ↦ none
      | no_network ↦ rest
      | throttled ↦ some (if failed then site_unreachable else auth_failed)
      | refused ↦ some auth_failed
    ]

unfoldable pub session_status : (ℕ → Check) → Option Status
unfolding status_from
session_status checks = status_from checks preflight_attempts 0 false

-- so many attempts in a row met no network
abbrev pub NoNetwork : (ℕ → Check) → ℕ → ℕ → Type 0
NoNetwork checks attempt zero = Unit
NoNetwork checks attempt (suc n) = (checks attempt ≡ no_network) × NoNetwork checks (suc attempt) n

-- why an answer is what it is, for a loop with so many attempts left
abbrev pub Because : (ℕ → Check) → ℕ → ℕ → Bool → Option Status → Type 0
Because checks left attempt failed none =
    (n : ℕ) × (n < left) × NoNetwork checks attempt n × (checks (n + attempt) ≡ valid)
Because checks left attempt failed (some auth_failed) =
    (n : ℕ) × (n < left)
    × NoNetwork checks attempt n
    × ((checks (n + attempt) ≡ refused)
        ⊎ ((checks (n + attempt) ≡ throttled) × (n ≡ 0) × (failed ≡ false)))
Because checks left attempt failed (some site_unreachable) =
    NoNetwork checks attempt left
    ⊎ ((n : ℕ) × (n < left) × NoNetwork checks attempt n × (checks (n + attempt) ≡ throttled))

module _ (checks : ℕ → Check) (left attempt : ℕ) (failed : Bool) where
  later :
      (e : checks attempt ≡ no_network) (o : Option Status)
      → Because checks left (suc attempt) true o
      → Because checks (suc left) attempt failed o
  later e none (n, lt, before, v) = (suc n, omega arith, (e, before), ap checks (omega arith) ∙ v)
  later e (some site_unreachable) (inl all) = inl (e, all)
  later e (some site_unreachable) (inr (n, lt, before, v)) =
      inr (suc n, omega arith, (e, before), ap checks (omega arith) ∙ v)
  later e (some auth_failed) (n, lt, before, inl v) =
      (suc n, omega arith, (e, before), inl (ap checks (omega arith) ∙ v))
  later e (some auth_failed) (n, lt, before, inr (v, z, f)) = absurd (impossible f)
    where
      impossible : true ≡ false → ⊥
      impossible f = cc

  now_throttled :
      (b : Bool)
      → failed ≡ b
      → checks attempt ≡ throttled
      → Because checks
          (suc left)
          attempt
          failed
          (some (if b then site_unreachable else auth_failed))
  now_throttled true f e = inr (0, omega arith, tt, ap checks (omega arith) ∙ e)
  now_throttled false f e = (0, omega arith, tt, inr (ap checks (omega arith) ∙ e, refl, f))

  one_attempt :
      Because checks left (suc attempt) true (status_from checks left (suc attempt) true)
      → (c : Check) → checks attempt ≡ c
      → Because checks (suc left) attempt failed (status_from checks (suc left) attempt failed)
  unfolding status_from
  one_attempt rest valid e = rw (e, status_from) (0, omega arith, tt, ap checks (omega arith) ∙ e)
  one_attempt rest no_network e = rw (e, status_from) (later e _ rest)
  one_attempt rest throttled e = rw (e, status_from) (now_throttled failed refl e)
  one_attempt rest refused e =
      rw (e, status_from) (0, omega arith, tt, inl (ap checks (omega arith) ∙ e))

status_from-Because :
    (checks : ℕ → Check) (left attempt : ℕ) (failed : Bool)
    → Because checks left attempt failed (status_from checks left attempt failed)
unfolding status_from
status_from-Because checks zero attempt failed = inl tt
status_from-Because checks (suc left) attempt failed =
    one_attempt checks left attempt failed (status_from-Because checks left (suc attempt) true)
      (checks attempt) refl

-- The session counts as good only if one of three attempts found it valid and each attempt before met
-- no network. It counts as failed only if an attempt was refused, or the first one throttled. The site
-- counts as unreachable only if all three met no network, or one was throttled, in each case after
-- attempts that met none.
pub session_status-Because :
    (checks : ℕ → Check) → Because checks preflight_attempts 0 false (session_status checks)
unfolding session_status
session_status-Because checks = status_from-Because checks preflight_attempts 0 false
