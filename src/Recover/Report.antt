-- ===== src/Recover/Report.antt =====
-- What `run_recovery` (scripts/recover_queue.py) and `run_sync` report: `_run_status` of
-- scripts/sync.py and the choice of a status.
use re_dstm.Prelude.{
  ℕ, ◌+◌, String, Bool, true, false, not, ◌&&◌, ◌||◌, Option, none, some, List, [], ◌∷◌, ltb, ◌==◌,
  str_eq, text_in, if◌then◌else◌, sum_by,
}
use re_dstm.Crawl.Session.{Status, site_unreachable, auth_failed}

-- `dict.get(key, 0)`
abbrev pub count_of : String → List (String × ℕ) → ℕ
count_of k [] = 0
count_of k (e ∷ es) = if str_eq e.0 k then e.1 else count_of k es

abbrev pub is_empty : List (String × ℕ) → Bool
is_empty [] = true
is_empty (e ∷ es) = false

-- codes of posts that nobody may read
abbrev pub is_benign : String → Bool
is_benign code = str_eq code "password_protected" || str_eq code "permission_denied"

-- `set(failures) - {...}` is not empty
abbrev pub has_operational : List String → Bool
has_operational [] = false
has_operational (c ∷ cs) = not (is_benign c) || has_operational cs

pub data RunState : Type 0 where
  succeeded partial failed : RunState

abbrev pub total : List (String × ℕ) → ℕ
total = sum_by (λ (e : String × ℕ). e.1)

abbrev pub item_failures : List (String × ℕ) → ℕ
item_failures outcomes = count_of "parse_failed" outcomes + count_of "fetch_failed" outcomes

unfoldable pub run_status : List (String × ℕ) → ℕ → List String → RunState
run_status outcomes scheduled failures =
    if not (has_operational failures)
      && (total outcomes == scheduled && item_failures outcomes == 0)
    then succeeded
    else if is_empty outcomes
    then failed
    else partial

pub data Reported : Type 0 where
  run : RunState → Reported
  unreachable denied rate_limited : Reported

abbrev of_session : Status → Reported
of_session site_unreachable = unreachable
of_session auth_failed = denied

abbrev network_status : List (String × ℕ) → Reported
network_status outcomes = if ltb 0 (count_of "stored" outcomes) then run partial else unreachable

-- The chain of tests before `finish_run`. The first argument is `preflight_status`: none if the session
-- was found good, and also if it was not checked, since there was no post to fetch or a pause.
unfoldable pub recovery_status :
    Option Status → Bool → List String → List (String × ℕ) → ℕ → List String → Reported
unfolding run_status
recovery_status (some s) paused spider outcomes scheduled failures = of_session s
recovery_status none paused spider outcomes scheduled failures =
    if paused
    then run partial
    else if text_in "auth_required" spider
    then denied
    else if text_in "network_error" spider
    then network_status outcomes
    else if text_in "rate_limited" spider
    then rate_limited
    else run (run_status outcomes scheduled failures)
