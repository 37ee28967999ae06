-- ===== src/Control/Client.antt =====
-- Delivery of reports by scripts/control_client.py: `_request`, `post`, `send_latest`,
-- `send_or_enqueue` and `flush`. Times are in milliseconds. What the network answers and what the
-- clocks read are arguments.
pub mod Delivery
pub mod Requests
use Prim.Native.String
use re_dstm.Prelude.{
  ℕ, zero, suc, ◌+◌, ◌*◌, ◌/◌, min, String, Bool, true, false, not, ◌&&◌, ◌||◌, Option, none, some,
  List, [], ◌∷◌, Result, Error, ok, err, value_error, runtime_error, raise_if, ◌>>=◌, ◌>>◌, ltb,
  leb, str_eq, is_some, if◌then◌else◌, length,
}
use re_dstm.Control.Json.{Fields, is_identifier}
use re_dstm.Control.Outbox.{
  Item, Outbox, run_route, command_route, enqueue, pending, acknowledge, reject, record_rejection,
  defer,
}

-- `_RETRY_DELAYS`, of which there are three
abbrev pub retry_delay : ℕ → ℕ
retry_delay zero = 2000
retry_delay (suc zero) = 5000
retry_delay (suc (suc n)) = 15000

abbrev pub retry_delays : ℕ
retry_delays = 3

-- `_MAX_RETRY_DELAY_SECONDS`
abbrev pub max_retry_delay : ℕ
max_retry_delay = 60000

-- `_UNAVAILABLE_COOLDOWN_SECONDS`
abbrev pub unavailable_cooldown : ℕ
unavailable_cooldown = 60000

-- `_REPEATED_UNAVAILABLE_ATTEMPTS`
abbrev pub repeated_unavailable_attempts : ℕ
repeated_unavailable_attempts = 10

-- `_RECENT_DELIVERY_SECONDS`
abbrev pub recent_delivery : ℕ
recent_delivery = 600000

-- `_PROTOCOL_ERROR_ATTEMPTS`
abbrev pub protocol_error_attempts : ℕ
protocol_error_attempts = 3

-- How a request ends: with data, or in ControlRejectedError, ControlUnavailableError or
-- ControlProtocolError.
pub data Reply : Type 0 where
  delivered : Reply
  rejected : (code : String) → Reply
  unavailable : (retry_after : Option ℕ) → Reply
  unreadable : Reply

-- `error.retry_after`, or the next delay with its jitter, in percent
abbrev pub pause : Option ℕ → ℕ → ℕ → ℕ
pause (some t) jitter attempt = min t max_retry_delay
pause none jitter attempt = min (retry_delay attempt * jitter / 100) max_retry_delay

-- The loop of `_request` from an attempt on, with so many retries left: the reply that it ends with
-- and the delays that it slept. `sends` and `jitter` are what an attempt gets and draws.
unfoldable pub request_from : (ℕ → Reply) → (ℕ → ℕ) → ℕ → ℕ → Reply × List ℕ
request_from sends jitter zero attempt = (sends attempt, [])
request_from sends jitter (suc left) attempt =
    let (last, slept) = request_from sends jitter left (suc attempt) in
    elim (sends attempt) [
      | unavailable wait ↦ (last, pause wait (jitter attempt) attempt ∷ slept)
      | delivered ↦ (delivered, [])
      | rejected code ↦ (rejected code, [])
      | unreadable ↦ (unreadable, [])
    ]

unfoldable pub request : (ℕ → Reply) → (ℕ → ℕ) → Reply × List ℕ
unfolding request_from
request sends jitter = request_from sends jitter retry_delays 0

-- `_unavailable_until`, and `_delivered_at`, which is -inf at first
pub record Client : Type 0 where
  pub unavailable_until : ℕ
  pub delivered_at : Option ℕ

-- What a post of a report gets: the reply, and what the clocks read then.
pub record Answer : Type 0 where
  pub reply : Reply
  pub monotonic : ℕ
  pub wall : ℕ

-- `_RUNNER_PATH.fullmatch(path) is not None`
unfoldable pub runner_path : String → Bool
runner_path path =
    str_eq path "/api/v1/runner/commands/claim"
    || (str_eq path "/api/v1/runner/heartbeat"
        || (str_eq path "/api/v1/runner/boards/status"
            || (str_eq path "/api/v1/runner/runs"
                || (str_eq path "/api/v1/runner/frontier-failures"
                    || (run_route "/events:batch" path
                        || (run_route "/finish" path || command_route path))))))

-- the guards of `post`, for a body of so many bytes
unfoldable pub post_guards : String → String → ℕ → Result (Unit {0})
unfolding runner_path
post_guards path key bytes = do
  raise_if (not (runner_path path)) (value_error "control path is outside the runner API")
  raise_if (not (is_identifier 8 128 key)) (value_error "idempotency key is invalid")
  raise_if (ltb (64 * 1024) bytes) (value_error "control request is too large")

-- what `post` leaves in the client when it returns
abbrev pub after_delivery : Client → ℕ → Client
after_delivery c now = record c { unavailable_until = 0; delivered_at = some now }

abbrev pub cool_down : Client → ℕ → Client
cool_down c now = record c { unavailable_until = now + unavailable_cooldown }

-- `time.monotonic() - self._delivered_at < _RECENT_DELIVERY_SECONDS`
abbrev pub delivered_recently : Client → ℕ → Bool
delivered_recently c now = elim c.delivered_at [
  | none ↦ false
  | some t ↦ ltb now (t + recent_delivery)
]

-- what becomes of a queued report
pub data Disposal : Type 0 where
  acknowledged : Disposal
  set_aside : (code : String) → Disposal
  postponed : (next : ℕ) → Disposal

-- `_RETRY_DELAYS[min(attempts, len(_RETRY_DELAYS) - 1)]` after now
abbrev next_attempt : Item → Answer → ℕ
next_attempt x a = a.wall + retry_delay (min x.attempts 2)

abbrev on_unavailable : Client → Item → Answer → Client × Disposal
on_unavailable c x a =
    if leb repeated_unavailable_attempts (x.attempts + 1) && delivered_recently c a.monotonic
    then (c, set_aside "control_unavailable_repeated")
    else (cool_down c a.monotonic, postponed (next_attempt x a))

abbrev on_unreadable : Client → Item → Answer → Client × Disposal
on_unreadable c x a =
    if leb protocol_error_attempts (x.attempts + 1)
    then (c, set_aside "control_protocol_error")
    else (c, postponed (next_attempt x a))

-- the `try` in the loop of `flush`, with its handlers
unfoldable pub dispose : Client → Item → Answer → Client × Disposal
dispose c x a = elim a.reply [
  | delivered ↦ (after_delivery c a.monotonic, acknowledged)
  | rejected code ↦ (c, set_aside code)
  | unavailable wait ↦ on_unavailable c x a
  | unreadable ↦ on_unreadable c x a
]

-- What a flush leaves: each report is a transaction of its own, so an exception undoes none.
pub record Flushed : Type 0 where
  pub client : Client
  pub box : Outbox
  pub sent : ℕ
  pub raised : Option Error

abbrev ends : Client → Outbox → ℕ → Option Error → Flushed
ends c box sent e = record { client = c; box = box; sent = sent; raised = e }

-- The loop of `flush`. A queued payload is the text of a dict, which `json.loads` reads back. `answers` says what the post of each report gets.
unfoldable pub flush_items : (Item → Answer) → Client → Outbox → ℕ → List Item → Flushed
flush_items answers c box sent [] = ends c box sent none
flush_items answers c box sent (x ∷ xs) =
    elim (post_guards x.path x.idempotency_key x.payload_bytes) [
      | err e ↦ ends c box sent (some e)
      | ok _ ↦ elim (dispose c x (answers x)).1 [
        | acknowledged ↦
            flush_items answers (dispose c x (answers x)).0 (acknowledge box x.id) (suc sent) xs
        | set_aside code ↦ elim (reject box x.id code (answers x).wall) [
          | ok box' ↦ flush_items answers (dispose c x (answers x)).0 box' sent xs
          | err e ↦ ends (dispose c x (answers x)).0 box sent (some e)
        ]
        | postponed next ↦ ends (dispose c x (answers x)).0 (defer box x.id next) sent none
      ]
    ]

-- 9999-01-01, the time with which `retry_deferred` asks for all
abbrev far_future : ℕ
far_future = 253370764800000

unfoldable pub flush : (Item → Answer) → Client → Outbox → ℕ → ℕ → ℕ → Bool → Flushed
flush answers c box limit monotonic wall retry_deferred =
    if ltb monotonic c.unavailable_until
    then ends c box 0 none
    else elim (pending box limit (if retry_deferred then far_future else wall)) [
      | err e ↦ ends c box 0 (some e)
      | ok items ↦ flush_items answers c box 0 items
    ]

-- what `send_or_enqueue` answers
pub data DeliveryResult : Type 0 where
  delivered_now retryable_queued permanently_rejected : DeliveryResult

abbrev pub Sent : Type 0
Sent = Result (DeliveryResult × Outbox × Client)

abbrev queued : Client → Result (ℕ × Outbox) → Sent
queued c (ok r) = ok (retryable_queued, r.1, c)
queued c (err e) = err e

abbrev counted : Client → Result Outbox → Sent
counted c (ok box) = ok (permanently_rejected, box, c)
counted c (err e) = err e

-- the handlers of `send_or_enqueue` around `post`
abbrev sent_directly : (Outbox → Result (ℕ × Outbox)) → Client → Outbox → Answer → Sent
sent_directly queue c box a = elim a.reply [
  | delivered ↦ ok (delivered_now, box, after_delivery c a.monotonic)
  | rejected code ↦ counted c (record_rejection box code a.wall)
  | unavailable wait ↦ queued (cool_down c a.monotonic) (queue box)
  | unreadable ↦ queued c (queue box)
]

abbrev flushed : (Item → Answer) → ℕ → ℕ → Client → Result (ℕ × Outbox) → Sent
flushed answers monotonic wall c (err e) = err e
flushed answers monotonic wall c (ok r) =
    let f = flush answers c r.1 50 monotonic wall false in
    elim f.raised [ none ↦ ok (retryable_queued, f.box, f.client) | some e ↦ err e ]

-- `send_or_enqueue`, for a report that `queue` puts into the outbox. An error is what the call raises;
-- what a flush had done before stays done.
unfoldable pub send_or_enqueue :
    (Outbox → Result (ℕ × Outbox))
    → (Item → Answer)
    → Answer
    → Client
    → Outbox
    → String
    → String
    → ℕ
    → ℕ
    → ℕ
    → Sent
unfolding flush post_guards
send_or_enqueue queue answers answer c box path key bytes monotonic wall =
    if ltb monotonic c.unavailable_until then queued c (queue box) else elim box.items [
      | x ∷ xs ↦ flushed answers monotonic wall c (queue box)
      | [] ↦ elim (post_guards path key bytes) [
        | err e ↦ err e
        | ok _ ↦ sent_directly queue c box answer
      ]
    ]

-- `send_latest`: whether it was sent, and the client
unfoldable pub send_latest : Answer → Client → String → String → ℕ → ℕ → Result (Bool × Client)
unfolding post_guards
send_latest a c path key bytes monotonic =
    if ltb monotonic c.unavailable_until then ok (false, c) else elim (post_guards path key bytes) [
      | err e ↦ err e
      | ok _ ↦ elim a.reply [
        | delivered ↦ ok (true, after_delivery c a.monotonic)
        | rejected code ↦ ok (false, c)
        | unavailable wait ↦ ok (false, cool_down c a.monotonic)
        | unreadable ↦ ok (false, c)
      ]
    ]
