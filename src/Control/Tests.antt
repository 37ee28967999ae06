-- ===== src/Control/Tests.antt =====
-- Runs of the command ledger and of the outbox on concrete tables.
use re_dstm.Prelude.{
  ltb, true, ◌≤◌, if◌then◌else◌, pos, ℕ, String, ◌≡◌, refl, arith, false, Option, none, some, List,
  [], ◌∷◌, Result, ok, find, raise_if, ◌>>=◌,
}
use re_dstm.Control.Json.{is_identifier, Json, Fields, end, field, number, text, object}
use re_dstm.Control.Claiming.{
  claim_command, claim_marker, read_command, is_marker, claim_marker-gives,
}
use re_dstm.Control.Ledger.{Command, claimed, succeeded, pending, delivered, command, begin_command}
use re_dstm.Control.Ledger.Terminal.{
  begin, finish, report, Ended, ledger_steps, Ended-for_good, begin_command-twice,
}
use re_dstm.Control.Outbox.{Item, Outbox, evict, make_room, insert_item, route_matches}
use re_dstm.Control.Client.{
  Reply, delivered as delivered_reply, unavailable, Client, Answer, post_guards, flush, request,
  runner_path,
}
use re_dstm.Control.Client.Delivery.{Advanced, rejected_total, flush-Advanced}
use re_dstm.Control.Client.Requests.{Requested, request-Requested, route_matches-runner_path}
use re_dstm.Control.Outbox.Eviction.{Settles, evict-exact}
use re_dstm.Control.Outbox.Inserting.{IsOutbox}
use re_dstm.Control.Outbox.Bounded.{
  OutboxOp, enqueue_report, acknowledge_item, reject_item, defer_item, outbox_steps,
  outbox_steps-IsOutbox, insert_item-twice,
}

abbrev no_uuid : String → Option String
no_uuid s = some s

abbrev same_text : String → String
same_text s = s

abbrev no_dumps : Option String → Option Json → String
no_dumps code payload = "{}"

abbrev ended : Command
ended = record {
  command_id = "1";
  action = "sync-now";
  state = succeeded;
  claimed_at = 1;
  updated_at = 2;
  run_id = none;
  result_json = "{}";
  args_json = "{}";
  reported_at = some 3;
  report_state = delivered;
}

Ended-for_good_example : Ended "1" ended (
    ledger_steps no_uuid same_text no_dumps
      (ended ∷ [])
      (begin "1" none 5 ∷ finish "1" succeeded none none 6 ∷ report "1" 7 ∷ []))
unfolding command find
Ended-for_good_example =
    Ended-for_good no_uuid same_text no_dumps
      (begin "1" none 5 ∷ finish "1" succeeded none none 6 ∷ report "1" 7 ∷ []) (ended ∷ []) "1"
      ended refl refl

abbrev waiting : Command
waiting = record ended { state = claimed; reported_at = none; report_state = pending }

begin_command-twice_example :
    begin_command (begin_command (waiting ∷ []) "1" (some "r") 5).1 "1" (some "q") 6
    ≡ (false, (begin_command (waiting ∷ []) "1" (some "r") 5).1)
begin_command-twice_example = begin_command-twice (waiting ∷ []) "1" (some "r") (some "q") 5 6

abbrev item : ℕ → ℕ → Item
item id priority = record {
  id = id;
  idempotency_key = "key-0001";
  dedupe_key = none;
  kind = "event_batch";
  path = "/api/v1/runner/runs/a/events:batch";
  payload_json = "{}";
  payload_bytes = 40;
  event_count = 1;
  priority = priority;
  created_at = 1;
  attempts = 0;
  next_attempt_at = none;
}

abbrev queue : List Item
queue = item 1 100 ∷ item 2 50 ∷ []

evict-exact_example :
    (r : Result (List Item)) × (evict 3 100 10 30 1 100 queue ≡ some r)
    × Settles 100 10 30 1 100 queue r
evict-exact_example =
    evict-exact 100 10 30 1 100 3 queue (omega arith) ((omega arith, tt), (tt, tt))

abbrev box : Outbox
box = record { items = queue; last_id = 2; rejections = none; max_bytes = 100; max_events = 10 }

box-IsOutbox : IsOutbox box
box-IsOutbox = record {
  ascending = ((omega arith, tt), (tt, tt));
  handed_out = (omega arith, (omega arith, tt));
  bytes_bounded = omega arith;
  events_bounded = omega arith;
}

abbrev calls : List OutboxOp
calls =
    enqueue_report "run_finish" "/api/v1/runner/runs/a/finish" (field "ok" (number (pos 1)) end)
      "key-0002" 5
    ∷ defer_item 1 9
    ∷ reject_item 1 "late" 6
    ∷ acknowledge_item 2
    ∷ []

outbox_steps-IsOutbox_example : IsOutbox (outbox_steps same_text (λ _. "{}") box calls)
outbox_steps-IsOutbox_example = outbox_steps-IsOutbox same_text (λ _. "{}") box calls box-IsOutbox

abbrev queued_box : Outbox
queued_box = record box { items = item 1 100 ∷ []; last_id = 1 }

insert_item-twice_example : insert_item queued_box (item 0 50) ≡ ok (1, queued_box)
unfolding insert_item find make_room evict raise_if ◌>>=◌
insert_item-twice_example =
    insert_item-twice (record box { items = []; last_id = 0 }) (item 0 100) (item 0 50) 1 queued_box
      refl refl

abbrev idle : Client
idle = record { unavailable_until = 0; delivered_at = none }

abbrev down : Item → Answer
down x = record { reply = unavailable none; monotonic = 7; wall = 9 }

flush-Advanced_example : Advanced queue (rejected_total box) (flush down idle box 50 5 5 false)
flush-Advanced_example = flush-Advanced down idle box 50 5 5 false ((omega arith, tt), (tt, tt))

abbrev third_time : ℕ → Reply
third_time n = if ltb n 2 then unavailable (some 90000) else delivered_reply

request-Requested_example : Requested third_time 3 0 (request third_time (λ _. 100))
request-Requested_example = request-Requested third_time (λ _. 100)

route_matches-runner_path_example : runner_path "/api/v1/runner/runs/a/finish" ≡ true
unfolding route_matches
route_matches-runner_path_example =
    route_matches-runner_path "run_finish" "/api/v1/runner/runs/a/finish" refl

abbrev pause_command : Fields
pause_command =
    field "command_id" (text "c1")
      (field "action" (text "pause-after-current") (field "state" (text "claimed") end))

claim_marker-gives_example :
    (is_marker pause_command ≡ true)
    × (ltb 5 idle.unavailable_until ≡ false)
    × ((is_identifier 8 128 "marker-1" ≡ true) × (40 ≤ 65536))
    × (delivered_reply ≡ delivered_reply)
    × ((claim_marker idle "marker-1" 40 5 delivered_reply 6
          (field "command" (object pause_command) end)).client
        ≡ record { unavailable_until = 0; delivered_at = some 6 })
unfolding claim_marker claim_command read_command post_guards raise_if ◌>>=◌ is_identifier
claim_marker-gives_example =
    claim_marker-gives idle "marker-1" 40 5 delivered_reply 6
      (field "command" (object pause_command) end) pause_command refl
