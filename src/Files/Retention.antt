-- ===== src/Files/Retention.antt =====
-- scripts/retention.py: captures and reports are kept for a time and within a budget of bytes. Times are
-- whole seconds.
pub mod Budget
use Prim.Native.Nat.{compare}
use Prim.Native.String.{compare as compare_text}
use text.Mathlib.Text.{is_lt}
use re_dstm.Prelude.{
  ℕ, suc, ◌+◌, ◌-◌, ◌*◌, String, Bool, true, false, not, ◌&&◌, ◌||◌, Option, none, some, List, [],
  ◌∷◌, ◌++◌, ltb, leb, str_eq, if◌then◌else◌, map, filter, length, sum_by,
}
use re_dstm.Prelude.Sorting.{sort}
use re_dstm.Frontier.Order.{then_by}

-- A path and what the system says of it. `has_stat` and `can_unlink` say whether these calls raise.
pub record File : Type 0 where
  pub path : String
  pub mtime : ℕ
  pub size : ℕ
  pub has_stat : Bool
  pub is_file : Bool
  pub can_unlink : Bool

pub record Pruned : Type 0 where
  pub files : ℕ
  pub bytes : ℕ

-- `__add__`
abbrev pub add : Pruned → Pruned → Pruned
add p q = record { files = p.files + q.files; bytes = p.bytes + q.bytes }

-- _MIN_AGE_SECONDS
abbrev pub day : ℕ
day = 24 * 60 * 60

-- the order of the tuples (mtime, size, path)
unfoldable pub oldest_first : File → File → Bool
oldest_first f g = is_lt (
    then_by (compare f.mtime g.mtime)
      (then_by (compare f.size g.size) (compare_text f.path g.path)))

abbrev pub bytes_of : List File → ℕ
bytes_of = sum_by (λ (f : File). f.size)

abbrev pub is_over : Option ℕ → ℕ → Bool
is_over none total = false
is_over (some limit) total = ltb limit total

-- what the loop does with a file: it ends, leaves the file, or removes it
pub data Verdict : Type 0 where
  ends leaves removes : Verdict

unfoldable pub verdict : ℕ → Option ℕ → ℕ → ℕ → File → Verdict
verdict keep limit now total f =
    let age = now - f.mtime in
    if ltb age day
    then ends
    else if leb age keep && not (is_over limit total)
    then leaves
    else if f.can_unlink
    then removes
    else leaves

-- what is removed and what stays, of the files from here on
abbrev pub Split : Type 0
Split = List File × List File

abbrev pub next : Verdict → File → List File → Split → Split → Split
next ends f fs left removed = ([], f ∷ fs)
next leaves f fs left removed = (left.0, f ∷ left.1)
next removes f fs left removed = (f ∷ removed.0, removed.1)

-- The loop. `total` is the sum of the sizes that are still there.
unfoldable pub prune_from : ℕ → Option ℕ → ℕ → ℕ → List File → Split
unfolding verdict
prune_from keep limit now total [] = ([], [])
prune_from keep limit now total (f ∷ fs) =
    let left = prune_from keep limit now total fs in
    let removed = prune_from keep limit now (total - f.size) fs in
    next (verdict keep limit now total f) f fs left removed

unfoldable pub entries : List File → List File
unfolding oldest_first
entries paths = sort oldest_first (filter (λ f. f.has_stat && f.is_file) paths)

abbrev pub pruned_of : List File → Pruned
pruned_of fs = record { files = length fs; bytes = bytes_of fs }

-- the files that are removed, and the entries that stay
unfoldable pub split_files : List File → ℕ → Option ℕ → ℕ → Split
unfolding entries prune_from
split_files paths keep limit now =
    prune_from keep limit now (bytes_of (entries paths)) (entries paths)

unfoldable pub prune_files : List File → ℕ → Option ℕ → ℕ → Pruned
unfolding split_files
prune_files paths keep limit now = pruned_of (split_files paths keep limit now).0

-- `captures` and `partials` are what the two globs give.
unfoldable pub prune_warc : Bool → List File → List File → ℕ → ℕ → ℕ → Pruned
unfolding prune_files
prune_warc is_dir captures partials keep_days max_bytes now =
    if is_dir
    then add (prune_files captures (keep_days * day) (some max_bytes) now)
        (prune_files partials (keep_days * day) none now)
    else record { files = 0; bytes = 0 }

-- the paths under a directory, with their suffixes
abbrev is_report : String × File → Bool
is_report p = str_eq p.0 ".json" || str_eq p.0 ".txt"

abbrev file_of : String × File → File
file_of p = p.1

unfoldable pub prune_reports : Bool → List (String × File) → ℕ → ℕ → Pruned
unfolding prune_files
prune_reports is_dir paths keep_days now =
    if is_dir
    then prune_files (map file_of (filter is_report paths)) (keep_days * day) none now
    else record { files = 0; bytes = 0 }
