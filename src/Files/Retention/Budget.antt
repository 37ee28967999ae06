-- ===== src/Files/Retention/Budget.antt =====
-- Which files `prune_files` leaves, and what is left of the budget.
use mathlib.Core.Path.{subst}
use re_dstm.Prelude.{
  ℕ, ◌+◌, ◌-◌, ◌≤◌, ◌<◌, ◌≡◌, refl, ◌⊎◌, inl, inr, Bool, true, false, not, ◌&&◌, Option, none, some,
  List, [], ◌∷◌, arith, ltb, leb, Bool-cases, All, All-imp,
}
use re_dstm.Prelude.Sorting.{Ordered, sort-Ordered}
use re_dstm.Files.Retention.{
  File, day, oldest_first, bytes_of, is_over, Verdict, ends, leaves, removes, verdict, next,
  prune_from, entries, split_files,
}

abbrev mtime_of : File → ℕ
mtime_of f = f.mtime

module _ (keep : ℕ) (limit : Option ℕ) (now : ℕ) where
  -- A file that was removed is at least a day old.
  abbrev pub IsOld : File → Type 0
  IsOld f = day ≤ now - f.mtime

  -- A file that stays is less than a day old, or its removal failed, or it is within its time and the
  -- budget is kept.
  abbrev pub IsKept : ℕ → File → Type 0
  IsKept total f =
      (now - f.mtime < day)
      ⊎ ((f.can_unlink ≡ false) ⊎ ((now - f.mtime ≤ keep) × (is_over limit total ≡ false)))

  -- what a verdict means
  abbrev Means : ℕ → File → Verdict → Type 0
  Means total f ends = now - f.mtime < day
  Means total f leaves =
      (f.can_unlink ≡ false) ⊎ ((now - f.mtime ≤ keep) × (is_over limit total ≡ false))
  Means total f removes = day ≤ now - f.mtime

  verdict-Means : (total : ℕ) (f : File) → Means total f (verdict keep limit now total f)
  unfolding verdict
  verdict-Means total f = elim (Bool-cases (ltb (now - f.mtime) day)) [
    | inl y ↦ rw y (young (now - f.mtime) y)
    | inr n ↦ elim (Bool-cases (leb (now - f.mtime) keep && not (is_over limit total))) [
      | inl y ↦ rw (n, y) (inr (within (now - f.mtime) (is_over limit total) y))
      | inr m ↦ elim (Bool-cases f.can_unlink) [
        | inl y ↦ rw (n, m, y) (old (now - f.mtime) n)
        | inr k ↦ rw (n, m, k) (inl refl)
      ]
    ]
  ]
    where
      young : (age : ℕ) → ltb age day ≡ true → age < day
      young age h = ground arith

      old : (age : ℕ) → ltb age day ≡ false → day ≤ age
      old age h = ground arith

      within :
          (age : ℕ) (over : Bool)
          → (leb age keep && not over) ≡ true
          → (age ≤ keep) × (over ≡ false)
      within age over h = (ground arith, ground arith)

  -- a smaller total is within the budget too
  is_over-less :
      (o : Option ℕ) (total less : ℕ)
      → less ≤ total
      → is_over o total ≡ false
      → is_over o less ≡ false
  is_over-less none total less le h = refl
  is_over-less (some n) total less le h = ground arith

  IsKept-less : (total less : ℕ) (f : File) → less ≤ total → Means total f leaves → IsKept less f
  IsKept-less total less f le (inl u) = inr (inl u)
  IsKept-less total less f le (inr (a, o)) = inr (inr (a, is_over-less limit total less le o))

  rest_young :
      (f : File) (fs : List File) (total : ℕ)
      → now - f.mtime < day
      → All (λ g. f.mtime ≤ g.mtime) fs
      → All (IsKept total) fs
  rest_young f fs total lt h =
      All-imp (λ g. f.mtime ≤ g.mtime) (IsKept total) (λ g le. inl (omega (arith, lt, le))) fs h

  -- What was removed is old, what stays is kept by the total that is left, and nothing is lost.
  abbrev Sound : ℕ → List File → List File × List File → Type 0
  Sound total fs r =
      All IsOld r.0
      × All (IsKept (total - bytes_of r.0)) r.1
      × (bytes_of r.0 + bytes_of r.1 ≡ bytes_of fs)

  next-Sound :
      (total : ℕ) (f : File) (fs : List File) (v : Verdict) (left removed : List File × List File)
      → Means total f v
      → All (λ g. f.mtime ≤ g.mtime) fs
      → Sound total fs left
      → Sound (total - f.size) fs removed
      → Sound total (f ∷ fs) (next v f fs left removed)
  next-Sound total f fs ends left removed m o l r =
      (tt, (inl m, rest_young f fs (total - 0) m o), omega arith)
  next-Sound total f fs leaves left removed m o l r = (
    l.0,
    (IsKept-less total (total - bytes_of left.0) f (omega arith) m, l.1),
    omega (arith, l.2),
  )
  next-Sound total f fs removes left removed m o l r =
      ((m, r.0), subst (λ n. All (IsKept n) removed.1) (omega arith) r.1, omega (arith, r.2))

  prune_from-Sound :
      (fs : List File) (total : ℕ)
      → Ordered mtime_of fs
      → Sound total fs (prune_from keep limit now total fs)
  unfolding prune_from
  prune_from-Sound [] total o = (tt, tt, refl)
  prune_from-Sound (f ∷ fs) total o =
      next-Sound total f fs (verdict keep limit now total f) (prune_from keep limit now total fs)
        (prune_from keep limit now (total - f.size) fs) (verdict-Means total f) o.0
        (prune_from-Sound fs total o.1) (prune_from-Sound fs (total - f.size) o.1)

oldest_first-forth : (f g : File) → oldest_first f g ≡ true → f.mtime ≤ g.mtime
unfolding oldest_first
oldest_first-forth f g h = ground arith

oldest_first-back : (f g : File) → oldest_first f g ≡ false → g.mtime ≤ f.mtime
unfolding oldest_first
oldest_first-back f g h = ground arith

entries-Ordered : (paths : List File) → Ordered mtime_of (entries paths)
unfolding entries
entries-Ordered paths = sort-Ordered mtime_of oldest_first oldest_first-forth oldest_first-back _

-- At the start, the total is that of all files, so what is left of it is that of the files that stay.
whole :
    (keep : ℕ) (limit : Option ℕ) (now : ℕ) (fs : List File) (r : List File × List File)
    → Sound keep limit now (bytes_of fs) fs r
    → All (IsOld keep limit now) r.0
      × All (IsKept keep limit now (bytes_of r.1)) r.1
      × (bytes_of r.0 + bytes_of r.1 ≡ bytes_of fs)
whole keep limit now fs r h = (h.0, subst (λ n. All (IsKept keep limit now n) r.1) left h.1, h.2)
  where
    left : bytes_of fs - bytes_of r.0 ≡ bytes_of r.1
    left = omega (arith, h.2)

-- For any files, window, budget and clock: each file that is removed is at least a day old; each file
-- that stays is younger than that, or could not be removed, or is within the window while the bytes
-- that stay are within the budget; and the bytes removed and those that stay are all there were.
pub split_files-exact :
    (paths : List File) (keep : ℕ) (limit : Option ℕ) (now : ℕ)
    → All (IsOld keep limit now) (split_files paths keep limit now).0
      × All
          (IsKept keep limit now (bytes_of (split_files paths keep limit now).1))
          (split_files paths keep limit now).1
      × (bytes_of (split_files paths keep limit now).0
            + bytes_of (split_files paths keep limit now).1
          ≡ bytes_of (entries paths))
unfolding split_files
split_files-exact paths keep limit now = whole keep limit now (entries paths) _ (
    prune_from-Sound keep limit now (entries paths) (bytes_of (entries paths))
      (entries-Ordered paths))
