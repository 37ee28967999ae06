-- ===== src/Control/Ledger.antt =====
-- The command ledger of scripts/control_store.py. A time is a number of milliseconds, as `_timestamp`
-- stores it; `json.dumps` and the parts of `uuid` and `str` in use are parameters.
pub mod Terminal
use Prim.Native.Nat.{compare}
use Prim.Native.String
use Prim.Native.String.{compare as compare_text}
use text.Mathlib.Text.{is_lt}
use re_dstm.Prelude.{
  ℤ, pos, negsuc, ℕ, ◌*◌, String, Bool, true, false, not, ◌&&◌, ◌||◌, Option, none, some, List, [],
  ◌∷◌, ◌++◌, Result, ok, err, value_error, raise_if, ◌>>=◌, ◌>>◌, ltb, str_eq, text_in, is_none,
  is_some, if◌then◌else◌, any, filter, take, count, find, update_where, ◌==◌,
}
use re_dstm.Prelude.Sorting.{sort}
use re_dstm.Frontier.Order.{then_by}
use re_dstm.Control.Json.{Json, number, Fields, end, field, is_identifier, safe_payload}

pub data CommandState : Type 0 where
  claimed running succeeded partial failed : CommandState

pub data ReportState : Type 0 where
  pending delivered permanently_rejected : ReportState

pub record Command : Type 0 where
  pub command_id : String
  pub action : String
  pub state : CommandState
  pub claimed_at : ℕ
  pub updated_at : ℕ
  pub run_id : Option String
  pub result_json : String
  pub args_json : String
  pub reported_at : Option ℕ
  pub report_state : ReportState

abbrev pub actions : List String
actions =
    "sync-now" ∷ "full-catalog" ∷ "full-content" ∷ "fill-missing-content" ∷ "retry-batch"
    ∷ "publish-if-changed" ∷ "pause-after-current" ∷ "resume-schedule" ∷ []

abbrev pub is_claimed : CommandState → Bool
is_claimed claimed = true
is_claimed _ = false

abbrev pub is_running : CommandState → Bool
is_running running = true
is_running _ = false

-- `state in _TERMINAL_STATES`
abbrev pub is_terminal : CommandState → Bool
is_terminal claimed = false
is_terminal running = false
is_terminal _ = true

abbrev pub same_state : CommandState → CommandState → Bool
same_state claimed claimed = true
same_state running running = true
same_state succeeded succeeded = true
same_state partial partial = true
same_state failed failed = true
same_state _ _ = false

abbrev pub is_pending : ReportState → Bool
is_pending pending = true
is_pending _ = false

abbrev pub same_report : ReportState → ReportState → Bool
same_report pending pending = true
same_report delivered delivered = true
same_report permanently_rejected permanently_rejected = true
same_report _ _ = false

abbrev pub has_id : String → Command → Bool
has_id id c = str_eq c.command_id id

unfoldable pub command : List Command → String → Option Command
command ledger id = find (has_id id) ledger

-- what `str(UUID(command_id))` and `command_id.lower()` say of the id
abbrev canonical : (String → Option String) → (String → String) → String → Result String
canonical uuid lower id = elim (uuid id) [
  | none ↦ err (value_error "command id must be a UUID")
  | some c ↦
      if str_eq c (lower id) then ok c else err (value_error "command id must be a canonical UUID")
]

-- `json.dumps(args or {}, ...)` is the argument `args_json`.
abbrev new_command : String → String → ℕ → String → Command
new_command id action now args_json = record {
  command_id = id;
  action = action;
  state = claimed;
  claimed_at = now;
  updated_at = now;
  run_id = none;
  result_json = "{}";
  args_json = args_json;
  reported_at = none;
  report_state = pending;
}

-- `INSERT ... ON CONFLICT(command_id) DO NOTHING`
abbrev insert_command : List Command → Command → List Command
insert_command ledger c = if any (has_id c.command_id) ledger then ledger else ledger ++ c ∷ []

abbrev require_row : Option Command → (Command → Bool) → String → Result Command
require_row none p message = err (value_error message)
require_row (some c) p message = if p c then ok c else err (value_error message)

unfoldable pub record_claim :
    (String → Option String)
    → (String → String)
    → List Command
    → String
    → String
    → String
    → ℕ
    → Result (Command × List Command)
record_claim uuid lower ledger id action args_json now = do
  canonical uuid lower id >>= λ _. ok tt
  raise_if (not (text_in action actions)) (value_error "command action is not allowed")
  let ledger' = insert_command ledger (new_command id action now args_json)
  c ←
      require_row (command ledger' id) (λ c. str_eq c.action action)
        "command replay action mismatch"
  ok (c, ledger')

abbrev begins : String → Command → Bool
begins id c = has_id id c && is_claimed c.state

abbrev begin_row : Option String → ℕ → Command → Command
begin_row run_id now c = record c { state = running; run_id = run_id; updated_at = now }

unfoldable pub begin_command : List Command → String → Option String → ℕ → Bool × List Command
begin_command ledger id run_id now =
    (count (begins id) ledger == 1, update_where (begins id) (begin_row run_id now) ledger)

abbrev runs : String → Command → Bool
runs id c = has_id id c && is_running c.state

-- `_PROGRESS_COUNTERS`
abbrev progress_counters : List String
progress_counters = "changed_posts" ∷ "failed_posts" ∷ "boards_ok" ∷ "boards_failed" ∷ []

abbrev has_field : Fields → String → Bool
has_field end k = false
has_field (field j v fs) k = str_eq j k || has_field fs k

abbrev has_fields : Fields → List String → Bool
has_fields fs [] = true
has_fields fs (k ∷ ks) = has_field fs k && has_fields fs ks

-- `isinstance(value, int) and not isinstance(value, bool) and value >= 0`
abbrev is_counter : Json → Bool
is_counter (number (pos n)) = true
is_counter _ = false

abbrev only_counters : Fields → Bool
only_counters end = true
only_counters (field k v fs) = text_in k progress_counters && is_counter v && only_counters fs

-- `json.dumps({"progress": counters}, ...)` is the argument `progress_json`.
unfoldable pub update_progress :
    List Command → String → Fields → String → ℕ → Result (Bool × List Command)
update_progress ledger id counters progress_json now = do
  raise_if (not (has_fields counters progress_counters && only_counters counters))
      (value_error "command progress counters are invalid")
  ok (
    count (runs id) ledger == 1,
    update_where (runs id) (λ c. record c { result_json = progress_json; updated_at = now }) ledger,
  )

unfoldable pub touch_command : List Command → String → ℕ → Bool × List Command
touch_command ledger id now = (
  count (runs id) ledger == 1,
  update_where (runs id) (λ c. record c { updated_at = now }) ledger,
)

abbrev bad_code : Option String → Bool
bad_code none = false
bad_code (some c) = not (is_identifier 1 128 c)

abbrev bad_payload : (String → String) → Option Json → Bool
bad_payload lower none = false
bad_payload lower (some p) = not (safe_payload lower p)

abbrev pub is_open : CommandState → Bool
is_open s = is_claimed s || is_running s

abbrev pub finishes : String → Command → Bool
finishes id c = has_id id c && is_open c.state

abbrev pub finish_row : CommandState → String → ℕ → Command → Command
finish_row state result_json now c = record c {
  state = state;
  result_json = result_json;
  updated_at = now;
  reported_at = none;
  report_state = pending;
}

-- `dumps` is `json.dumps` of the result with its code and payload.
unfoldable pub finish_command :
    (String → String)
    → (Option String → Option Json → String)
    → List Command
    → String
    → CommandState
    → Option String
    → Option Json
    → ℕ
    → Result (Command × List Command)
finish_command lower dumps ledger id state code payload now = do
  raise_if (not (is_terminal state)) (value_error "command terminal state is invalid")
  raise_if (bad_code code) (value_error "command result code is invalid")
  raise_if (bad_payload lower payload)
      (value_error "command result contains a forbidden field or local path")
  raise_if (ltb (16 * 1024) (String.len (dumps code payload)))
      (value_error "command result is too large")
  let ledger' = update_where (finishes id) (finish_row state (dumps code payload) now) ledger
  c ←
      require_row (command ledger' id) (λ c. same_state c.state state)
        "command cannot transition to terminal state"
  ok (c, ledger')

unfoldable pub by_claim : Command → Command → Bool
by_claim c d =
    is_lt (then_by (compare c.claimed_at d.claimed_at) (compare_text c.command_id d.command_id))

abbrev unreported : Command → Bool
unreported c = is_none c.reported_at && is_pending c.report_state

unfoldable pub pending_commands : List Command → ℕ → Result (List Command)
pending_commands ledger limit = do
  raise_if (ltb limit 1 || ltb 50 limit) (value_error "command page limit must be between 1 and 50")
  ok (take limit (sort by_claim (filter unreported ledger)))

abbrev pub reports : String → Command → Bool
reports id c = has_id id c && (is_terminal c.state && is_pending c.report_state)

abbrev pub report_row : ReportState → ℕ → Command → Command
report_row report now c = record c { reported_at = some now; report_state = report }

abbrev report_is : ReportState → Option Command → Bool
report_is r none = false
report_is r (some c) = same_report c.report_state r

-- `mark_reported` and `mark_report_rejected`, which differ in the report state and the message
unfoldable pub mark : ReportState → String → List Command → String → ℕ → Result (List Command)
mark report message ledger id now = do
  let ledger' = update_where (reports id) (report_row report now) ledger
  raise_if (not (count (reports id) ledger == 1) && not (report_is report (command ledger' id)))
      (value_error message)
  ok ledger'

unfoldable pub mark_reported : List Command → String → ℕ → Result (List Command)
mark_reported = mark delivered "only terminal commands can be marked reported"

unfoldable pub mark_report_rejected : List Command → String → ℕ → Result (List Command)
mark_report_rejected =
    mark permanently_rejected "only pending terminal reports can be marked rejected"
