-- ===== src/Runner/Combined.antt =====
-- `_collection_counters` and `_combined_collection_report` in scripts/control_runner.py: one report of
-- the reports of a command's batches.
--
-- Of a report stand here the fields that the two functions read, and the status for the rest, which
-- they copy; the argument `safe_code` is None. A count is what `_integer` makes of it; a row of `outcomes`, `boards` or `failures` is
-- one of the type that they test for. A set is a list of its members as they came, so the sort of
-- `failures` is left out.
pub mod Gathered
pub mod Selected
pub mod Folded
use re_dstm.Prelude.{
  ℕ, zero, ◌+◌, ◌-◌, String, Bool, true, false, ◌&&◌, Option, none, some, is_some, List, [], ◌∷◌,
  ltb, str_eq, if◌then◌else◌, find, Result, ok, err, value_error, length, count, sum_by,
}

pub record BoardReport : Type 0 where
  pub board_id : String
  pub status : String

pub record Report : Type 0 where
  pub outcomes : List (String × ℕ)
  pub boards : List BoardReport
  pub failures : List String
  pub run_id : Option String
  pub selected_posts : ℕ
  pub scheduled_posts : ℕ
  pub changed_posts : Option ℕ
  pub failed_posts : Option ℕ
  pub boards_ok : ℕ
  pub boards_failed : ℕ
  pub status : String

-- `outcomes.get(name, 0)`
unfoldable pub outcome_of : String → List (String × ℕ) → ℕ
outcome_of name [] = 0
outcome_of name (r ∷ rs) = let rest = outcome_of name rs in if str_eq r.0 name then r.1 else rest

unfoldable pub or_else : Option ℕ → ℕ → ℕ
or_else none d = d
or_else (some x) d = x

-- `_collection_counters(report)["changed_posts"]`
abbrev pub changed : Report → ℕ
changed r = or_else r.changed_posts (outcome_of "stored" r.outcomes)

-- `_collection_counters(report)["failed_posts"]`
abbrev pub failed : Report → ℕ
failed r =
    or_else r.failed_posts
      (outcome_of "parse_failed" r.outcomes + outcome_of "fetch_failed" r.outcomes)

module _ {A : Type 0} (key : A → String) (merge : A → A → A) where
  -- A row whose key is in the dict is merged with the one there, and keeps its place.
  unfoldable pub put : A → List A → List A
  put x [] = x ∷ []
  put x (y ∷ ys) =
      let rest = put x ys in if str_eq (key y) (key x) then merge y x ∷ ys else y ∷ rest

  unfoldable pub put_all : List A → List A → List A
  put_all acc [] = acc
  put_all acc (x ∷ xs) = put_all (put x acc) xs

  -- the rows of all reports
  unfoldable pub gather : (Report → List A) → List A → List Report → List A
  gather rows acc [] = acc
  gather rows acc (r ∷ rs) = gather rows (put_all acc (rows r)) rs

abbrev pub name_of : String × ℕ → String
name_of r = r.0

abbrev pub add_up : String × ℕ → String × ℕ → String × ℕ
add_up old new = (old.0, old.1 + new.1)

abbrev pub id_of : BoardReport → String
id_of b = b.board_id

abbrev pub newer : BoardReport → BoardReport → BoardReport
newer old new = new

abbrev pub itself : String → String
itself code = code

abbrev pub older : String → String → String
older old new = old

unfoldable pub last_of : Report → List Report → Report
last_of r [] = r
last_of r (s ∷ rs) = last_of s rs

-- the run of a report that selected posts
abbrev pub pick : Option String → Report → Option String
pick found r = if ltb 0 r.selected_posts && is_some r.run_id then r.run_id else found

-- the run of the last report that selected posts
unfoldable pub selected_run : Option String → List Report → Option String
selected_run found [] = found
selected_run found (r ∷ rs) = selected_run (pick found r) rs

unfoldable pub run_or : Option String → Option String → Option String
run_or none d = d
run_or (some x) d = some x

abbrev pub is_ok : BoardReport → Bool
is_ok b = str_eq b.status "succeeded"

-- what the boards count, if there are any
unfoldable pub if_any : List BoardReport → ℕ → ℕ → ℕ
if_any [] n d = d
if_any (b ∷ bs) n d = n

unfoldable pub combine : Report → List Report → Report
combine r rs =
    let all = r ∷ rs in
    let last = last_of r rs in
    let bs = gather id_of newer (λ x. x.boards) [] all in
    record {
      outcomes = gather name_of add_up (λ x. x.outcomes) [] all;
      boards = bs;
      failures = gather itself older (λ x. x.failures) [] all;
      run_id = run_or (selected_run none all) last.run_id;
      selected_posts = sum_by (λ x. x.selected_posts) all;
      scheduled_posts = sum_by (λ x. x.scheduled_posts) all;
      changed_posts = some (sum_by changed all);
      failed_posts = some (sum_by failed all);
      boards_ok = if_any bs (count is_ok bs) last.boards_ok;
      boards_failed = if_any bs (length bs - count is_ok bs) last.boards_failed;
      status = last.status;
    }

unfoldable pub combined_collection_report : List Report → Result Report
combined_collection_report [] = err (value_error "collection reports are required")
combined_collection_report (r ∷ rs) = ok (combine r rs)
