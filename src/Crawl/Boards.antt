-- ===== src/Crawl/Boards.antt =====
-- `_boards`, `_inventory_pass_coverage` and `_outcome_counts` of scripts/crawl_cycle.py. A time of
-- `last_inventory_at` is a number of seconds, since the store writes nothing else into the column.
use Prim.Native.Nat.{compare}
use Prim.Native.String.{compare as compare_text}
use text.Mathlib.Text.{is_lt}
use re_dstm.Prelude.{
  ℕ, ◌-◌, String, Bool, true, false, not, ◌&&◌, ◌||◌, Option, none, some, List, [], ◌∷◌, map, ltb,
  leb, ◌==◌, str_eq, text_in, if◌then◌else◌, filter, count, pos,
}
use re_dstm.Prelude.Sorting.{sort}
use re_dstm.Frontier.Table.{Board}
use re_dstm.Frontier.Order.{then_by, compare_time}
use re_dstm.Control.Json.{Json, number, object, Fields, end, field}

abbrev pub in_progress : Board → Bool
in_progress b = ltb 1 b.inventory_next_page

-- `CASE WHEN inventory_next_page > 1 THEN 0 ELSE 1 END`
abbrev progress_rank : Board → ℕ
progress_rank b = if in_progress b then 0 else 1

-- `CASE WHEN inventory_next_page > 1 THEN last_inventory_at END`
abbrev checkpointed : Board → Option ℕ
checkpointed b = if in_progress b then b.last_inventory_at else none

-- `CASE WHEN inventory_next_page = 1 THEN COALESCE(last_inventory_at, '') END`: the empty text stands
-- before every time, and NULL is only compared with NULL, since such rows differ in rank from others.
abbrev started_over : Board → Option ℕ
started_over b = if b.inventory_next_page == 1 then b.last_inventory_at else none

unfoldable pub by_inventory : Board → Board → Bool
by_inventory b c = is_lt (
    then_by (compare (progress_rank b) (progress_rank c)) (
      then_by (compare_time (checkpointed c) (checkpointed b)) (
        then_by (compare_time (started_over b) (started_over c))
          (compare_text b.board_id c.board_id))))

unfoldable pub by_board : Board → Board → Bool
by_board b c = is_lt (compare_text b.board_id c.board_id)

-- `is_enabled = 1`, and the board that was asked for
abbrev pub is_wanted : Option String → Board → Bool
is_wanted none b = b.is_enabled
is_wanted (some id) b = b.is_enabled && str_eq b.board_id id

-- `last_inventory_at IS NULL OR last_inventory_at < ?`
abbrev pub seen_before : Option ℕ → ℕ → Bool
seen_before none since = true
seen_before (some t) since = ltb t since

-- the clause `coverage`
abbrev pub is_uncovered : Option ℕ → Board → Bool
is_uncovered none b = true
is_uncovered (some since) b =
    seen_before b.last_inventory_at since || not (b.inventory_next_page == 1)

unfoldable pub boards : List Board → Option String → Bool → Option ℕ → List String
unfolding by_inventory by_board
boards shelves id true since =
    map (λ (b : Board). b.board_id)
      (sort by_inventory (filter (λ b. is_wanted id b && is_uncovered since b) shelves))
boards shelves id false since =
    map (λ (b : Board). b.board_id) (sort by_board (filter (is_wanted id) shelves))

abbrev pub seen_since : Option ℕ → ℕ → Bool
seen_since none since = false
seen_since (some t) since = leb since t

abbrev pub is_covered : ℕ → Board → Bool
is_covered since b = seen_since b.last_inventory_at since && b.inventory_next_page == 1

pub record Coverage : Type 0 where
  pub total : ℕ
  pub completed : ℕ
  pub in_progress_boards : ℕ
  pub pending : ℕ

-- Subtraction stops at 0, as `max(..., 0)` does.
unfoldable pub inventory_pass_coverage : List Board → ℕ → Option String → Coverage
inventory_pass_coverage shelves started_at id =
    let total = count (is_wanted id) shelves in
    let completed = count (λ b. is_wanted id b && is_covered started_at b) shelves in
    let active = count (λ b. is_wanted id b && in_progress b) shelves in
    record {
      total = total;
      completed = completed;
      in_progress_boards = active;
      pending = total - completed - active;
    }

-- `_OUTCOMES`
abbrev outcomes : List String
outcomes = "stored" ∷ "unchanged" ∷ "restricted" ∷ "missing" ∷ "parse_failed" ∷ "fetch_failed" ∷ []

abbrev counts_in : Fields → List (String × ℕ)
counts_in end = []
counts_in (field k (number (pos n)) fs) =
    let rest = counts_in fs in if text_in k outcomes then (k, n) ∷ rest else rest
counts_in (field k v fs) = counts_in fs

-- `_outcome_counts`, of `report.get("outcomes", {})`
unfoldable pub outcome_counts : Option Json → List (String × ℕ)
outcome_counts (some (object fs)) = counts_in fs
outcome_counts _ = []
