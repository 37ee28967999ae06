-- ===== src/Frontier/Seeding.antt =====
-- What seeding a post does to its row.
use re_dstm.Prelude.{
  ℕ, ℤ, ◌+◌, String, ◌≡◌, ◌≢◌, refl, ap, ◌∙◌, inl, inr, ◌⊎◌, Bool, true, false, Option, none, some,
  List, [], ◌∷◌, ◌++◌, arith, ok, ◌>>=◌, raise_if, ◌==◌, str_eq_refl, any, Bool-cases,
  if◌then◌else◌, All, update_row, update_where,
}
use re_dstm.Frontier.Table.{Row, Archive, at}
use re_dstm.Frontier.Keys.{any-false}
use re_dstm.Frontier.Lease.{is_bad_count, as_count}
use re_dstm.Frontier.Seed.{seed, refresh, new_row, max_rowid}

module _ (p : Row → Bool) (f : Row → Row) where
  update_where-twice :
      ((r : Row) → p r ≡ true → update_row p f (f r) ≡ f r)
      → (rows : List Row) → update_where p f (update_where p f rows) ≡ update_where p f rows
  unfolding update_where
  update_where-twice same [] = refl
  update_where-twice same (r ∷ rows) = elim (Bool-cases (p r)) [
    | inl y ↦ rw y (rw (same r y) (rw (update_where-twice same rows)))
    | inr n ↦ rw n (rw n (rw (update_where-twice same rows)))
  ]

  update_where-none :
      (rows ss : List Row)
      → All (λ s. p s ≡ false) rows
      → update_where p f (rows ++ ss) ≡ rows ++ update_where p f ss
  unfolding update_where
  update_where-none [] ss h = refl
  update_where-none (r ∷ rows) ss h = rw h.0 (rw (update_where-none rows ss h.1))

any-append :
    (p : Row → Bool) (rows : List Row) (n : Row) → p n ≡ true → any p (rows ++ n ∷ []) ≡ true
any-append p [] n h = rw h
any-append p (r ∷ rows) n h = ground (arith, any-append p rows n h)

any-update_where :
    (p : Row → Bool) (f : Row → Row)
    → ((r : Row) → p (update_row p f r) ≡ p r)
    → (rows : List Row) → any p (update_where p f rows) ≡ any p rows
unfolding update_where
any-update_where p f same [] = refl
any-update_where p f same (r ∷ rows) = rw (same r) (rw (any-update_where p f same rows))

refresh_twice :
    (url : String) (priority : ℤ) (expected : Option ℕ) (sha : Option String) (r : Row)
    → refresh url priority expected false sha (refresh url priority expected false sha r)
      ≡ refresh url priority expected false sha r
unfolding refresh
refresh_twice url priority expected none r = ground arith
refresh_twice url priority expected (some h) r = ground (arith, str_eq_refl h)

refresh_new :
    (id : ℕ) (b : String) (i : ℕ) (url : String) (priority : ℤ) (expected : Option ℕ)
    (captured : Bool) (sha : Option String)
    → refresh url priority expected false sha (new_row id b i url priority expected captured sha)
      ≡ new_row id b i url priority expected captured sha
unfolding refresh
refresh_new id b i url priority expected captured none = ground arith
refresh_new id b i url priority expected captured (some h) = ground arith

module _ (b : String) (i : ℕ) (url : String) (priority : ℤ) (expected : Option ℤ) (captured : Bool)
    (sha : Option String) where
  abbrev again : Row → Row
  again = refresh url priority (as_count expected) false sha

  abbrev added : Archive → Row
  added a = new_row (max_rowid a.frontier + 1) b i url priority (as_count expected) captured sha

  -- the frontier that `seed` leaves where its two tests pass
  abbrev seeded : Archive → List Row
  seeded a =
      if any (at b i) a.frontier
      then update_where (at b i) again a.frontier
      else a.frontier ++ added a ∷ []

  seed-eq :
      (a : Archive)
      → is_bad_count expected ≡ false
      → (i == 0) ≡ false
      → seed a b i url priority false expected captured sha ≡ ok (record a { frontier = seeded a })
  unfolding seed ◌>>=◌ raise_if
  seed-eq a fine positive = rw fine (rw positive)

  seed-fails :
      (a : Archive)
      → ((is_bad_count expected ≡ false) × ((i == 0) ≡ false) → ⊥)
      → (a' : Archive) → seed a b i url priority false expected captured sha ≢ ok a'
  unfolding seed ◌>>=◌ raise_if
  seed-fails a bad a' = elim (Bool-cases (is_bad_count expected)) [
    | inl y ↦ rw y (λ e. cc)
    | inr n ↦ elim (Bool-cases (i == 0)) [
      | inl z ↦ rw n (rw z (λ e. cc))
      | inr z ↦ absurd (bad (n, z))
    ]
  ]

  again_at : (r : Row) → at b i (update_row (at b i) again r) ≡ at b i r
  unfolding refresh
  again_at r = elim (Bool-cases (at b i r)) [ inl y ↦ rw y y | inr n ↦ rw n n ]

  again_same : (r : Row) → at b i r ≡ true → update_row (at b i) again (again r) ≡ again r
  again_same r y = same (Bool-cases (at b i (again r)))
    where
      same :
          (at b i (again r) ≡ true) ⊎ (at b i (again r) ≡ false)
          → update_row (at b i) again (again r) ≡ again r
      same (inl k) = rw k (refresh_twice url priority (as_count expected) sha r)
      same (inr k) = rw k

  seeded_twice : (a : Archive) → seeded (record a { frontier = seeded a }) ≡ seeded a
  seeded_twice a = elim (Bool-cases (any (at b i) a.frontier)) [
    | inl y ↦ rw y (
        rw (any-update_where (at b i) again again_at a.frontier ∙ y)
          (update_where-twice (at b i) again again_same a.frontier))
    | inr n ↦ rw n (
        rw (any-append (at b i) a.frontier (added a) added_at) (
          update_where-none (at b i) again a.frontier (added a ∷ []) (any-false b i a.frontier n)
          ∙ ap (λ rs. a.frontier ++ rs) once))
  ]
    where
      added_at : at b i (added a) ≡ true
      added_at = ground (arith, str_eq_refl b)

      once : update_where (at b i) again (added a ∷ []) ≡ added a ∷ []
      once =
          unfold update_where in
          rw added_at
            (ap (λ r. r ∷ []) (refresh_new _ b i url priority (as_count expected) captured sha))

  -- Seeding a post a second time with the same arguments, and with no order to reopen done posts,
  -- changes nothing.
  pub seed-twice :
      (a a' : Archive)
      → seed a b i url priority false expected captured sha ≡ ok a'
      → seed a' b i url priority false expected captured sha ≡ ok a'
  seed-twice a a' e = elim (Bool-cases (is_bad_count expected)) [
    | inl y ↦ absurd (seed-fails a (λ g. ground arith) a' e)
    | inr n ↦ elim (Bool-cases (i == 0)) [
      | inl z ↦ absurd (seed-fails a (λ g. ground arith) a' e)
      | inr z ↦
          let left : a' ≡ record a { frontier = seeded a } = cc (e, seed-eq a n z) in
          rw left (
            seed-eq (record a { frontier = seeded a }) n z
            ∙ ap (λ rs. ok (record a { frontier = rs })) (seeded_twice a))
    ]
  ]
