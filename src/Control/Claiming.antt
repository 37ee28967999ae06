-- ===== src/Control/Claiming.antt =====
-- How scripts/control_client.py claims commands: `_claim` and `claim_marker`.
use re_dstm.Prelude.{
  arith, ◌*◌, ◌≤◌, raise_if, ◌>>=◌, refl, inl, inr, Bool-cases, ℕ, String, ◌≡◌, Bool, true, false,
  ◌&&◌, Option, none, some, List, [], ◌∷◌, Result, ok, err, runtime_error, type_error, ltb, text_in,
  if◌then◌else◌,
}
use re_dstm.Control.Json.{is_identifier, Json, Fields, get_field}
use re_dstm.Control.Json as Value
use re_dstm.Control.Ledger.{actions}
use re_dstm.Control.Client.{
  Reply, delivered, rejected, unavailable, unreadable, Client, post_guards, after_delivery,
  cool_down,
}

abbrev is_string : Option Json → Bool
is_string (some (Value.text s)) = true
is_string _ = false

abbrev is_dict : Option Json → Bool
is_dict (some (Value.object fs)) = true
is_dict _ = false

-- `command.get("action") not in _ACTIONS`, which raises for a list or a dict
abbrev known_action : List String → Option Json → Result Bool
known_action names (some (Value.text s)) = ok (text_in s names)
known_action names (some (Value.list xs)) = err (type_error "unhashable type: 'list'")
known_action names (some (Value.object fs)) = err (type_error "unhashable type: 'dict'")
known_action names _ = ok false

-- `isinstance(command.get("args", {}), dict)`
abbrev args_ok : Option Json → Bool
args_ok none = true
args_ok (some v) = is_dict (some v)

abbrev bad_command : Result (Option Fields)
bad_command = err (runtime_error "invalid_command_response")

abbrev read_fields : Fields → Result (Option Fields)
read_fields fs =
    if is_string (get_field "command_id" fs)
    then elim (known_action actions (get_field "action" fs)) [
      | err e ↦ err e
      | ok known ↦
          if known && (args_ok (get_field "args" fs) && is_string (get_field "state" fs))
          then ok (some fs)
          else bad_command
    ]
    else bad_command

-- `_claim` from `data.get("command")` on
unfoldable pub read_command : Option Json → Result (Option Fields)
read_command none = ok none
read_command (some Value.null) = ok none
read_command (some (Value.object fs)) = read_fields fs
read_command (some _) = bad_command

pub record Claimed : Type 0 where
  pub client : Client
  pub result : Result (Option Fields)

-- what the post of a claim that was sent gets, answered at a time with data if it is delivered
abbrev claim_sent : Client → Reply → ℕ → Fields → Claimed
claim_sent c reply now reply_data = elim reply [
  | delivered ↦ record {
    client = after_delivery c now;
    result = read_command (get_field "command" reply_data);
  }
  | rejected code ↦ record { client = c; result = err (runtime_error code) }
  | unavailable wait ↦ record {
    client = c;
    result = err (runtime_error "control plane is temporarily unavailable");
  }
  | unreadable ↦ record { client = c; result = err (runtime_error "invalid_response") }
]

abbrev claim_with : Result (Unit {0}) → Client → Reply → ℕ → Fields → Claimed
claim_with (err e) c reply now reply_data = record { client = c; result = err e }
claim_with (ok u) c reply now reply_data = claim_sent c reply now reply_data

-- the guards of `post` for a claim, whose body has so many bytes
abbrev claim_guards : String → ℕ → Result (Unit {0})
claim_guards key bytes = post_guards "/api/v1/runner/commands/claim" key bytes

-- `_claim`, with an idempotency key and a body of so many bytes
unfoldable pub claim_command : Client → String → ℕ → Reply → ℕ → Fields → Claimed
unfolding read_command
claim_command c key bytes reply now reply_data =
    claim_with (claim_guards key bytes) c reply now reply_data

abbrev pub markers : List String
markers = "pause-after-current" ∷ "resume-schedule" ∷ []

abbrev pub is_marker : Fields → Bool
is_marker fs = elim (known_action markers (get_field "action" fs)) [ ok b ↦ b | err e ↦ false ]

abbrev only_marker : Result (Option Fields) → Result (Option Fields)
only_marker (ok (some fs)) =
    if is_marker fs then ok (some fs) else err (runtime_error "invalid_marker_command_response")
only_marker r = r

-- the cooldown after a claim that was sent and found the Worker unavailable
abbrev cooled : Result (Unit {0}) → Client → Reply → ℕ → Client
cooled (ok u) c (unavailable wait) now = cool_down c now
cooled _ c _ now = c

-- `claim_marker`, called at one time and answered at another
unfoldable pub claim_marker : Client → String → ℕ → ℕ → Reply → ℕ → Fields → Claimed
unfolding claim_command
claim_marker c key bytes monotonic reply now reply_data =
    if ltb monotonic c.unavailable_until
    then record { client = c; result = ok none }
    else let claimed = claim_command c key bytes reply now reply_data in
      record {
        client = cooled (claim_guards key bytes) claimed.client reply now;
        result = only_marker claimed.result;
      }

only_marker-gives :
    (r : Result (Option Fields)) (fs : Fields) → only_marker r ≡ ok (some fs) → is_marker fs ≡ true
only_marker-gives (ok none) fs e = cc
only_marker-gives (ok (some gs)) fs e = elim (Bool-cases (is_marker gs)) [
  | inl y ↦
      let e' : ok (some gs) ≡ ok (some fs) = rw y at e in let same : gs ≡ fs = cc in rw (← same) y
  | inr n ↦ cc (rw n at e)
]
only_marker-gives (err x) fs e = cc

nothing : (fs : Fields) (o : Option Fields) → o ≡ none → ok o ≡ ok (some fs) → ⊥
nothing fs o n e = cc

answered :
    (guards : Result (Unit {0})) (c : Client) (reply : Reply) (now : ℕ) (reply_data : Fields)
    (fs : Fields)
    → only_marker (claim_with guards c reply now reply_data).result ≡ ok (some fs)
    → (is_marker fs ≡ true)
      × (reply ≡ delivered)
      × (guards ≡ ok tt)
      × (cooled guards (claim_with guards c reply now reply_data).client reply now
          ≡ after_delivery c now)
answered (err x) c reply now reply_data fs e = cc
answered (ok u) c delivered now reply_data fs e =
    (only_marker-gives (read_command (get_field "command" reply_data)) fs e, refl, refl, refl)
answered (ok u) c (rejected code) now reply_data fs e = cc
answered (ok u) c (unavailable wait) now reply_data fs e = cc
answered (ok u) c unreadable now reply_data fs e = cc

-- A key that passes the guards has from 8 to 128 characters of an identifier.
guarded :
    (key : String) (bytes : ℕ)
    → claim_guards key bytes ≡ ok tt
    → (is_identifier 8 128 key ≡ true) × (bytes ≤ 65536)
unfolding post_guards raise_if ◌>>=◌
guarded key bytes e = elim (Bool-cases (is_identifier 8 128 key)) [
  | inr b ↦ cc (rw b at e)
  | inl b ↦ elim (Bool-cases (ltb (64 * 1024) bytes)) [
    | inl c ↦ cc (rw (b, c) at e)
    | inr c ↦ (b, small bytes c)
  ]
]
  where
    small : (n : ℕ) → ltb (64 * 1024) n ≡ false → n ≤ 65536
    small n h = ground arith

-- Whatever the Worker answers, a marker claim that gives a command gives one whose action is a marker's,
-- and it gives one only when the client is not in its cooldown, the idempotency key is an identifier of
-- 8 to 128 characters, the body is of at most 64 KiB, and the post was delivered, which ends the
-- cooldown.
pub claim_marker-gives :
    (c : Client) (key : String) (bytes monotonic : ℕ) (reply : Reply) (now : ℕ)
    (reply_data : Fields) (fs : Fields)
    → (claim_marker c key bytes monotonic reply now reply_data).result ≡ ok (some fs)
    → (is_marker fs ≡ true)
      × (ltb monotonic c.unavailable_until ≡ false)
      × ((is_identifier 8 128 key ≡ true) × (bytes ≤ 65536))
      × (reply ≡ delivered)
      × ((claim_marker c key bytes monotonic reply now reply_data).client
          ≡ record { unavailable_until = 0; delivered_at = some now })
unfolding claim_marker claim_command
claim_marker-gives c key bytes monotonic reply now reply_data fs e =
    elim (Bool-cases (ltb monotonic c.unavailable_until)) [
      | inl y ↦ absurd (nothing fs none refl (rw (y, claim_marker) at e))
      | inr n ↦
          let (marker, sent, passed, left) =
            answered (claim_guards key bytes) c reply now reply_data fs
              (rw (n, claim_marker) at e) in
          (marker, n, guarded key bytes passed, sent, rw (n, claim_marker) left)
    ]
