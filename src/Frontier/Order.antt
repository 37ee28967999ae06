-- ===== src/Frontier/Order.antt =====
-- The ORDER BY clauses of crawler/frontier.py, as Boolean orders on rows.
use Prim.Native.Nat.{compare, Ordering}
use Prim.Native.String.{compare as compare_text}
use text.Mathlib.Text.{is_lt}
use re_dstm.Prelude.{ℕ, ◌+◌, Bool, Option, none, some, ℤ, pos_part, neg_part}
use re_dstm.Frontier.Table.{Row}

-- the next key decides where this one is equal
abbrev pub then_by : Ordering → Ordering → Ordering
then_by Ordering.eq o = o
then_by o _ = o

abbrev pub compare_ℤ : ℤ → ℤ → Ordering
compare_ℤ a b = compare (pos_part a + neg_part b) (pos_part b + neg_part a)

-- `board_id, external_post_id`
abbrev pub by_key : Row → Row → Ordering
by_key r s =
    then_by (compare_text r.board_id s.board_id) (compare r.external_post_id s.external_post_id)

-- `ORDER BY priority DESC, board_id, external_post_id`
unfoldable pub by_priority : Row → Row → Bool
by_priority r s = is_lt (then_by (compare_ℤ s.priority r.priority) (by_key r s))

-- `x IS NOT NULL, julianday(x)`: NULL comes first, as it does in `ORDER BY julianday(x)` alone
abbrev pub compare_time : Option ℕ → Option ℕ → Ordering
compare_time none none = Ordering.eq
compare_time none (some t) = Ordering.lt
compare_time (some s) none = Ordering.gt
compare_time (some s) (some t) = compare s t
