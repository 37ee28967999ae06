-- ===== src/Files/Tests.antt =====
-- Runs of the retention on concrete files.
use re_dstm.Prelude.{ℕ, ◌+◌, ◌*◌, ◌≡◌, String, refl, true, some, List, [], ◌∷◌, All}
use re_dstm.Prelude.Sorting.{sort}
use re_dstm.Files.Retention.{File, day, bytes_of, entries, split_files, prune_files}
use re_dstm.Files.Retention.Budget.{IsOld, IsKept, split_files-exact}

abbrev file : String → ℕ → File
file path mtime = record {
  path = path;
  mtime = mtime;
  size = 10;
  has_stat = true;
  is_file = true;
  can_unlink = true;
}

abbrev paths : List File
paths = file "c" 900000 ∷ file "a" 0 ∷ file "b" 500000 ∷ []

prune_files_over : prune_files paths (7 * day) (some 15) 1000000 ≡ record { files = 2; bytes = 20 }
unfolding prune_files sort
prune_files_over = refl

split_files-exact_example :
    All (IsOld (7 * day) (some 15) 1000000) (split_files paths (7 * day) (some 15) 1000000).0
    × All
        (IsKept
          (7 * day)
          (some 15)
          1000000
          (bytes_of (split_files paths (7 * day) (some 15) 1000000).1))
        (split_files paths (7 * day) (some 15) 1000000).1
    × (bytes_of (split_files paths (7 * day) (some 15) 1000000).0
          + bytes_of (split_files paths (7 * day) (some 15) 1000000).1
        ≡ bytes_of (entries paths))
split_files-exact_example = split_files-exact paths (7 * day) (some 15) 1000000
