-- ===== src/Prelude/Rows.antt =====
-- Tables as lists of rows: `UPDATE ... WHERE`, its row count, and the row that a key finds.
use mathlib.Core.Path.{◌≡◌, refl, subst, ap}
use mathlib.Core.Logic.{inl, inr}
use mathlib.Core.Bool.{Bool, true, false}
use mathlib.Core.Option.{Option, none, some}
use mathlib.Core.List.{List, [], ◌∷◌, ◌++◌}
use native.Mathlib.Omega.{arith}
use re_dstm.Prelude.Tests.{if◌then◌else◌, Bool-cases}
use re_dstm.Prelude.Lists.{All, count}

module _ {ℓ} {A : Type ℓ} where
  abbrev pub update_row : (A → Bool) → (A → A) → A → A
  update_row p f r = if p r then f r else r

  -- `UPDATE table SET f WHERE p`
  unfoldable pub update_where : (A → Bool) → (A → A) → List A → List A
  update_where p f [] = []
  update_where p f (r ∷ rs) = update_row p f r ∷ update_where p f rs

  -- the first row that passes the test
  unfoldable pub find : (A → Bool) → List A → Option A
  find key [] = none
  find key (r ∷ rs) = if key r then some r else find key rs

  abbrev pub map_row : (A → A) → Option A → Option A
  map_row f none = none
  map_row f (some r) = some (f r)

  -- An update that leaves the key alone acts on the row that the key finds.
  pub find-update_where :
      (key p : A → Bool) (f : A → A)
      → ((r : A) → key (update_row p f r) ≡ key r)
      → (rs : List A) → find key (update_where p f rs) ≡ map_row (update_row p f) (find key rs)
  unfolding find update_where
  find-update_where key p f keep [] = refl
  find-update_where key p f keep (r ∷ rs) = elim (Bool-cases (key r)) [
    | inl e ↦ rw (keep r) (rw e)
    | inr e ↦ rw (keep r) (rw e (find-update_where key p f keep rs))
  ]

  -- How many rows pass a test after an update, counted before it.
  pub count-update_where :
      (q q' p : A → Bool) (f : A → A)
      → ((r : A) → q (update_row p f r) ≡ q' r)
      → (rs : List A) → count q (update_where p f rs) ≡ count q' rs
  unfolding update_where
  count-update_where q q' p f same [] = refl
  count-update_where q q' p f same (r ∷ rs) = rw (same r) (rw (count-update_where q q' p f same rs))

  -- An update that selects no row changes nothing.
  pub update_where-none :
      (p : A → Bool) (f : A → A) (rs : List A) → count p rs ≡ 0 → update_where p f rs ≡ rs
  unfolding update_where
  update_where-none p f [] h = refl
  update_where-none p f (r ∷ rs) h = elim (Bool-cases (p r)) [
    | inl y ↦ absurd (omega (arith, (rw y at h)))
    | inr n ↦ rw n (ap (λ x. r ∷ x) (update_where-none p f rs (rw n at h)))
  ]

  pub count-false : (rs : List A) → count (λ _. false) rs ≡ 0
  count-false [] = refl
  count-false (r ∷ rs) = count-false rs

  pub find-append :
      (key : A → Bool) (rs ss : List A) (r : A)
      → find key rs ≡ some r
      → find key (rs ++ ss) ≡ some r
  unfolding find
  find-append key [] ss r e = cc
  find-append key (s ∷ rs) ss r e = elim (Bool-cases (key s)) [
    | inl k ↦ rw k (rw k at e)
    | inr k ↦ rw k (find-append key rs ss r (rw k at e))
  ]

  -- The row that is found passes the test.
  pub find_passes : (p : A → Bool) (xs : List A) (r : A) → find p xs ≡ some r → p r ≡ true
  unfolding find
  find_passes p [] r e = cc
  find_passes p (x ∷ xs) r e = elim (Bool-cases (p x)) [
    | inl y ↦ let e' : some x ≡ some r = rw y at e in let same : x ≡ r = cc in rw (← same) y
    | inr n ↦ find_passes p xs r (rw n at e)
  ]

module _ {ℓ κ} {A : Type ℓ} (P : A → Type κ) where
  pub All-update_where :
      (p : A → Bool) (f : A → A)
      → ((r : A) → p r ≡ true → P r → P (f r))
      → (rs : List A) → All P rs
      → All P (update_where p f rs)
  unfolding update_where
  All-update_where p f keep [] h = tt
  All-update_where p f keep (r ∷ rs) h = (
    elim (Bool-cases (p r)) [ inl e ↦ rw e (keep r e h.0) | inr e ↦ rw e h.0 ],
    All-update_where p f keep rs h.1,
  )

  pub find-All : (key : A → Bool) (rs : List A) (r : A) → All P rs → find key rs ≡ some r → P r
  unfolding find
  find-All key [] r h e = cc
  find-All key (s ∷ rs) r h e = elim (Bool-cases (key s)) [
    | inl k ↦ let e' : some s ≡ some r = rw k at e in subst P (cc) h.0
    | inr k ↦ find-All key rs r h.1 (rw k at e)
  ]

module _ {ℓ κ μ} {A : Type ℓ} (Q : A → Type κ) (P : A → Type μ) where
  -- What the update leaves, row by row.
  pub All-updated :
      (p : A → Bool) (f : A → A)
      → ((r : A) → Q r → P (update_row p f r))
      → (rows : List A) → All Q rows
      → All P (update_where p f rows)
  unfolding update_where
  All-updated p f h [] q = tt
  All-updated p f h (r ∷ rows) q = (h r q.0, All-updated p f h rows q.1)
