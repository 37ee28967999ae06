-- ===== src/Control/Outbox.antt =====
-- The outbox of scripts/control_store.py: a bounded queue of reports. The table is a list in the order
-- of its ids, which AUTOINCREMENT hands out from `last_id`.
pub mod Ids
pub mod Eviction
pub mod Inserting
pub mod Bounded
use Prim.Native.String
use re_dstm.Prelude.{
  ℕ, zero, suc, ◌+◌, ◌*◌, String, Bool, true, false, not, ◌&&◌, ◌||◌, Option, none, some, List, [],
  ◌∷◌, ◌++◌, Result, ok, err, value_error, type_error, outbox_full_error, raise_if, ◌>>=◌, ◌>>◌,
  ltb, leb, ◌==◌, str_eq, is_text, if◌then◌else◌, filter, take, find, sum_by, length, count,
  update_where,
}
use re_dstm.Control.Json.{
  Json, null, boolean, number, text, list, object, Items, nil, cons, Fields, end, field, codes,
  is_id_char, is_hex_char, strip_prefix, is_identifier, safe_payload, get_field,
}

pub record Item : Type 0 where
  pub id : ℕ
  pub idempotency_key : String
  pub dedupe_key : Option String
  pub kind : String
  pub path : String
  pub payload_json : String
  pub payload_bytes : ℕ
  pub event_count : ℕ
  pub priority : ℕ
  pub created_at : ℕ
  pub attempts : ℕ
  pub next_attempt_at : Option ℕ

pub record Rejections : Type 0 where
  pub rejected_count : ℕ
  pub last_code : String
  pub last_rejected_at : ℕ

pub record Outbox : Type 0 where
  pub items : List Item
  pub last_id : ℕ
  pub rejections : Option Rejections
  pub max_bytes : ℕ
  pub max_events : ℕ

-- `_PRIORITIES`
unfoldable pub priority_of : String → Option ℕ
priority_of kind =
    if str_eq kind "event_batch"
    then some 50
    else if str_eq kind "board_status"
    then some 60
    else if str_eq kind "frontier_failures"
    then some 60
    else if str_eq kind "heartbeat"
    then some 80
    else if str_eq kind "run_start"
    then some 100
    else if str_eq kind "run_finish"
    then some 100
    else if str_eq kind "command_finish"
    then some 100
    else none

-- the longest run of characters of a class, and what follows it
abbrev span : (ℕ → Bool) → List ℕ → ℕ × List ℕ
span p [] = (0, [])
span p (c ∷ cs) = let (n, rest) = span p cs in if p c then (suc n, rest) else (0, c ∷ cs)

abbrev is_suffix : List ℕ → List ℕ → Bool
is_suffix [] [] = true
is_suffix (a ∷ as') (b ∷ bs) = a == b && is_suffix as' bs
is_suffix _ _ = false

-- `prefix[class]{lo,hi}suffix` for a suffix that begins outside the class
abbrev matches_part : (ℕ → Bool) → ℕ → ℕ → String → Option (List ℕ) → Bool
matches_part p lo hi suffix none = false
matches_part p lo hi suffix (some cs) =
    let (n, rest) = span p cs in leb lo n && leb n hi && is_suffix rest (codes suffix)

abbrev pub run_route : String → String → Bool
run_route suffix path =
    matches_part is_id_char 1 128 suffix (strip_prefix (codes "/api/v1/runner/runs/") (codes path))

abbrev pub command_route : String → Bool
command_route path =
    matches_part is_hex_char 36 36 "/finish"
      (strip_prefix (codes "/api/v1/runner/commands/") (codes path))

-- `_PATHS[kind].fullmatch(path) is not None`
unfoldable pub route_matches : String → String → Bool
route_matches kind path =
    if str_eq kind "heartbeat"
    then str_eq path "/api/v1/runner/heartbeat"
    else if str_eq kind "board_status"
    then str_eq path "/api/v1/runner/boards/status"
    else if str_eq kind "frontier_failures"
    then str_eq path "/api/v1/runner/frontier-failures"
    else if str_eq kind "run_start"
    then str_eq path "/api/v1/runner/runs"
    else if str_eq kind "event_batch"
    then run_route "/events:batch" path
    else if str_eq kind "run_finish"
    then run_route "/finish" path
    else if str_eq kind "command_finish"
    then command_route path
    else false

abbrev length_items : Items → ℕ
length_items nil = 0
length_items (cons x xs) = suc (length_items xs)

abbrev length_fields : Fields → ℕ
length_fields end = 0
length_fields (field k v fs) = suc (length_fields fs)

-- `len(payload.get("events", []))`
abbrev events_length : Option Json → Result ℕ
events_length none = ok 0
events_length (some (list xs)) = ok (length_items xs)
events_length (some (object fs)) = ok (length_fields fs)
events_length (some (text s)) = ok (length (codes s))
events_length (some _) = err (type_error "object has no len()")

unfoldable pub event_count_of : String → Fields → Result ℕ
event_count_of kind payload =
    if str_eq kind "event_batch" then events_length (get_field "events" payload) else ok 1

abbrev board_key : Option Json → (String → String) → Option String
board_key (some (text b)) prefix = some (prefix b)
board_key _ prefix = none

-- `_dedupe_key`; `f"board:{...}"` is `"board:" ++ board_id`
unfoldable pub dedupe_key : String → Fields → Option String
dedupe_key kind payload =
    if str_eq kind "heartbeat"
    then some "heartbeat"
    else if str_eq kind "board_status"
    then board_key (get_field "board_id" payload) (λ b. String.◌++◌ "board:" b)
    else none

abbrev pub total_bytes : List Item → ℕ
total_bytes = sum_by (λ (x : Item). x.payload_bytes)

abbrev pub total_events : List Item → ℕ
total_events = sum_by (λ (x : Item). x.event_count)

abbrev fits : ℕ → ℕ → ℕ → ℕ → List Item → Bool
fits max_bytes max_events bytes events items =
    leb (total_bytes items + bytes) max_bytes && leb (total_events items + events) max_events

-- `ORDER BY priority, id LIMIT 1`
abbrev lower_of : Item → Option Item → Item
lower_of x none = x
lower_of x (some y) =
    if ltb y.priority x.priority || (y.priority == x.priority && ltb y.id x.id) then y else x

unfoldable pub lowest : List Item → Option Item
lowest [] = none
lowest (x ∷ xs) = some (lower_of x (lowest xs))

abbrev pub is_evictable : ℕ → Item → Bool
is_evictable priority x = ltb x.priority 100 && leb x.priority priority

-- `DELETE FROM outbox WHERE id = ?`
abbrev pub delete_id : ℕ → List Item → List Item
delete_id id items = filter (λ (x : Item). not (x.id == id)) items

-- The loop of `_make_room`. Each round deletes an item, so it takes as fuel one round more than
-- there are items; `none` means that the fuel ran out.
unfoldable pub evict : ℕ → ℕ → ℕ → ℕ → ℕ → ℕ → List Item → Option (Result (List Item))
evict zero max_bytes max_events bytes events priority items = none
evict (suc fuel) max_bytes max_events bytes events priority items =
    elim (fits max_bytes max_events bytes events items) [
      | true ↦ some (ok items)
      | false ↦ elim (lowest (filter (is_evictable priority) items)) [
        | none ↦ some (err (outbox_full_error "outbox is full of protected terminal events"))
        | some victim ↦
            evict fuel max_bytes max_events bytes events priority (delete_id victim.id items)
      ]
    ]

abbrev or_full : Option (Result (List Item)) → Result (List Item)
or_full none = err (outbox_full_error "out of fuel")
or_full (some r) = r

unfoldable pub make_room : Outbox → List Item → ℕ → ℕ → ℕ → Result (List Item)
make_room box items bytes events priority = do
  raise_if (ltb box.max_bytes bytes || ltb box.max_events events)
      (outbox_full_error "outbox item exceeds its bounded capacity")
  or_full (evict (suc (length items)) box.max_bytes box.max_events bytes events priority items)

abbrev has_dedupe : Option String → Item → Bool
has_dedupe none x = false
has_dedupe (some k) x = is_text x.dedupe_key k

abbrev route_priority : String → String → Result ℕ
route_priority kind path = elim (priority_of kind) [
  | none ↦ err (value_error "outbox route is not allowed")
  | some p ↦
      if route_matches kind path then ok p else err (value_error "outbox route is not allowed")
]

abbrev pub has_key : String → Item → Bool
has_key k x = str_eq x.idempotency_key k

-- The part of `enqueue` in the transaction, for an item that has all columns but its id.
unfoldable pub insert_item : Outbox → Item → Result (ℕ × Outbox)
insert_item box new = elim (find (has_key new.idempotency_key) box.items) [
  | some old ↦ ok (old.id, box)
  | none ↦ do
    kept ←
        make_room box (filter (λ x. not (has_dedupe new.dedupe_key x)) box.items) new.payload_bytes
          new.event_count new.priority
    let id = suc box.last_id
    ok (id, record box { items = kept ++ record new { id = id } ∷ []; last_id = id })
]

-- `dumps` is `json.dumps` of the payload, a dict.
unfoldable pub enqueue :
    (String → String)
    → (Fields → String)
    → Outbox
    → String
    → String
    → Fields
    → String
    → ℕ
    → Result (ℕ × Outbox)
enqueue lower dumps box kind path payload key now = do
  priority ← route_priority kind path
  raise_if (not (is_identifier 8 128 key)) (value_error "outbox idempotency key is invalid")
  raise_if (not (safe_payload lower (object payload)))
      (value_error "outbox payload contains a forbidden field or local path")
  let encoded = dumps payload
  events ← event_count_of kind payload
  raise_if (ltb events 1 || ltb (64 * 1024) (String.len encoded))
      (value_error "outbox payload is empty or too large")
  insert_item box (record {
    id = 0;
    idempotency_key = key;
    dedupe_key = dedupe_key kind payload;
    kind = kind;
    path = path;
    payload_json = encoded;
    payload_bytes = String.len encoded;
    event_count = events;
    priority = priority;
    created_at = now;
    attempts = 0;
    next_attempt_at = none;
  })

abbrev pub is_deferred : ℕ → Item → Bool
is_deferred now x = elim x.next_attempt_at [ none ↦ false | some t ↦ ltb now t ]

-- the loop over the rows, which stops at the first that is not due
abbrev pub until_deferred : ℕ → List Item → List Item
until_deferred now [] = []
until_deferred now (x ∷ xs) =
    let rest = until_deferred now xs in if is_deferred now x then [] else x ∷ rest

unfoldable pub pending : Outbox → ℕ → ℕ → Result (List Item)
pending box limit now = do
  raise_if (ltb limit 1 || ltb 50 limit) (value_error "outbox page limit must be between 1 and 50")
  ok (until_deferred now (take limit box.items))

unfoldable pub acknowledge : Outbox → ℕ → Outbox
acknowledge box id = record box { items = delete_id id box.items }

abbrev pub count_rejection : Option Rejections → String → ℕ → Rejections
count_rejection none code now = record {
  rejected_count = 1;
  last_code = code;
  last_rejected_at = now;
}
count_rejection (some r) code now = record {
  rejected_count = r.rejected_count + 1;
  last_code = code;
  last_rejected_at = now;
}

unfoldable pub record_rejection : Outbox → String → ℕ → Result Outbox
record_rejection box code now = do
  raise_if (not (is_identifier 1 128 code)) (value_error "control rejection code is invalid")
  ok (record box { rejections = some (count_rejection box.rejections code now) })

unfoldable pub reject : Outbox → ℕ → String → ℕ → Result Outbox
reject box id code now = do
  raise_if (not (is_identifier 1 128 code)) (value_error "control rejection code is invalid")
  raise_if (not (count (λ (x : Item). x.id == id) box.items == 1))
      (value_error "outbox rejection item is missing")
  ok (record box {
    items = delete_id id box.items;
    rejections = some (count_rejection box.rejections code now);
  })

abbrev pub defer_row : ℕ → Item → Item
defer_row next x = record x { attempts = x.attempts + 1; next_attempt_at = some next }

unfoldable pub defer : Outbox → ℕ → ℕ → Outbox
defer box id next = record box {
  items = update_where (λ (x : Item). x.id == id) (defer_row next) box.items;
}

unfoldable pub rejection : Outbox → Option Rejections
rejection box = box.rejections

-- rows, bytes and events
unfoldable pub stats : Outbox → ℕ × ℕ × ℕ
stats box = (length box.items, total_bytes box.items, total_events box.items)
