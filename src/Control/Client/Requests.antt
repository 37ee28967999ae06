-- ===== src/Control/Client/Requests.antt =====
-- How a request is tried again, and that the routes of the outbox are routes of the client.
use re_dstm.Prelude.{
  ℕ, zero, suc, ◌+◌, ◌≤◌, String, ◌≡◌, refl, sym, ap, ◌∙◌, Bool, true, false, ◌||◌, Option, none,
  some, List, [], arith, str_eq, if◌then◌else◌, All, length,
}
use re_dstm.Control.Outbox.{route_matches, run_route, command_route}
use re_dstm.Control.Client.{
  Reply, delivered, rejected, unavailable, unreadable, runner_path, pause, request, request_from,
  max_retry_delay, retry_delays,
}

abbrev is_unavailable : Reply → Bool
is_unavailable (unavailable wait) = true
is_unavailable _ = false

-- From an attempt on, so many sends find the Worker unavailable.
abbrev AllUnavailable : (ℕ → Reply) → ℕ → ℕ → Type 0
AllUnavailable sends attempt zero = Unit
AllUnavailable sends attempt (suc n) =
    (is_unavailable (sends attempt) ≡ true) × AllUnavailable sends (suc attempt) n

-- what a request from an attempt on has done
abbrev pub Requested : (ℕ → Reply) → ℕ → ℕ → Reply × List ℕ → Type 0
Requested sends left attempt r =
    (r.0 ≡ sends (length r.1 + attempt))
    × (length r.1 ≤ left)
    × All (λ t. t ≤ max_retry_delay) r.1
    × AllUnavailable sends attempt (length r.1)

pause-le : (wait : Option ℕ) (jitter attempt : ℕ) → pause wait jitter attempt ≤ max_retry_delay
pause-le none jitter attempt = omega arith
pause-le (some t) jitter attempt = omega arith

module _ (sends : ℕ → Reply) (jitter : ℕ → ℕ) (left attempt : ℕ) where
  at_once : (r : Reply) → sends attempt ≡ r → Requested sends (suc left) attempt (r, [])
  at_once r e = (sym e ∙ ap sends (omega arith), omega arith, tt, tt)

  one_send :
      Requested sends left (suc attempt) (request_from sends jitter left (suc attempt))
      → (r : Reply) → sends attempt ≡ r
      → Requested sends (suc left) attempt (request_from sends jitter (suc left) attempt)
  unfolding request_from
  one_send rest delivered e = rw (e, request_from) (at_once delivered e)
  one_send rest (rejected code) e = rw (e, request_from) (at_once (rejected code) e)
  one_send rest unreadable e = rw (e, request_from) (at_once unreadable e)
  one_send rest (unavailable wait) e =
      rw (e, request_from)
        (
          rest.0 ∙ ap sends (omega arith),
          omega (arith, rest.1),
          (pause-le wait (jitter attempt) attempt, rest.2),
          (ap is_unavailable e, rest.3),
        )

request_from-Requested :
    (sends : ℕ → Reply) (jitter : ℕ → ℕ) (left attempt : ℕ)
    → Requested sends left attempt (request_from sends jitter left attempt)
unfolding request_from
request_from-Requested sends jitter zero attempt = (ap sends (omega arith), omega arith, tt, tt)
request_from-Requested sends jitter (suc left) attempt =
    one_send sends jitter left attempt (request_from-Requested sends jitter left (suc attempt))
      (sends attempt) refl

-- A request is sent once more than it sleeps, at most four times, and each sleep is at most a minute.
-- Each send but the last found the Worker unavailable, and the reply is what the last one got.
pub request-Requested :
    (sends : ℕ → Reply) (jitter : ℕ → ℕ) → Requested sends retry_delays 0 (request sends jitter)
unfolding request
request-Requested sends jitter = request_from-Requested sends jitter retry_delays 0

routes_agree :
    (k1 k2 k3 k4 k5 k6 k7 claim heartbeat boards failures runs events finish command : Bool)
    → (if k1
        then heartbeat
        else if k2
        then boards
        else if k3
        then failures
        else if k4
        then runs
        else if k5
        then events
        else if k6
        then finish
        else if k7
        then command
        else false)
      ≡ true
    → (claim || (heartbeat || (boards || (runs || (failures || (events || (finish || command)))))))
      ≡ true
routes_agree k1 k2 k3 k4 k5 k6 k7 claim heartbeat boards failures runs events finish command h =
    ground arith

-- Every route of the outbox is a route that the client posts to, so no queued report is refused for its
-- path.
pub route_matches-runner_path :
    (kind path : String) → route_matches kind path ≡ true → runner_path path ≡ true
unfolding route_matches runner_path
route_matches-runner_path kind path h =
    routes_agree (str_eq kind "heartbeat") (str_eq kind "board_status")
      (str_eq kind "frontier_failures") (str_eq kind "run_start") (str_eq kind "event_batch")
      (str_eq kind "run_finish") (str_eq kind "command_finish")
      (str_eq path "/api/v1/runner/commands/claim") (str_eq path "/api/v1/runner/heartbeat")
      (str_eq path "/api/v1/runner/boards/status") (str_eq path "/api/v1/runner/frontier-failures")
      (str_eq path "/api/v1/runner/runs") (run_route "/events:batch" path)
      (run_route "/finish" path) (command_route path) h
