-- ===== src/Store/Posts/Kept.antt =====
-- That `store_post` never replaces comments by fewer while more are expected.
use mathlib.Core.Path.{subst}
use re_dstm.Prelude.{
  ℕ, ◌≤◌, ◌<◌, String, ◌≡◌, refl, sym, ap, ◌∙◌, inl, inr, Bool, true, false, not, Option, some,
  List, [], ◌∷◌, ◌++◌, map, arith, ok, ltb, Bool-cases, any, filter, count, find, find-update_where,
  map_row, update_row, length,
}
use re_dstm.Prelude.Ensures.{Ensures, Ensures-ok, Ensures-raise_if, Ensures-bind}
use re_dstm.Frontier.Table.{Post}
use re_dstm.Frontier.Lease.{Lease}
use re_dstm.Store.Tables.{Comment, Store, add_capture}
use re_dstm.Store.Discovered.{id_of}
use re_dstm.Store.Bodies.{
  NewPost, NewComment, Fetched, Tools, StoreResult, key_of, of_post, short_of, shortage, keep_body,
  project, upsert,
}
use re_dstm.Store.Posts.{
  replace_comments, comments_if, comment_row, put_body, store_or_keep, store_post,
}

any_found :
    (p : Post → Bool) (posts : List Post) (q : Post) → find p posts ≡ some q → any p posts ≡ true
unfolding find
any_found p [] q e = cc
any_found p (x ∷ posts) q e = elim (Bool-cases (p x)) [
  | inl y ↦ rw y
  | inr n ↦ rw n (any_found p posts q (rw n at e))
]

-- The upsert keeps the post of its key, but for the columns that it sets.
pub find-upsert :
    (n : NewPost) (time : Option String) (at : ℕ) (posts : List Post) (p : Post)
    → find (key_of n) posts ≡ some p
    → find (key_of n) (upsert n time at posts) ≡ some (update_row (key_of n) (project n time at) p)
unfolding upsert
find-upsert n time at posts p e = rw (any_found (key_of n) posts p e) (
    find-update_where (key_of n) (key_of n) (project n time at) keeps posts
    ∙ ap (map_row (update_row (key_of n) (project n time at))) e)
  where
    keeps : (q : Post) → key_of n (update_row (key_of n) (project n time at) q) ≡ key_of n q
    keeps q = elim (Bool-cases (key_of n q)) [ inl y ↦ rw y y | inr m ↦ rw m m ]

pub id-upsert :
    (n : NewPost) (time : Option String) (at : ℕ) (posts : List Post) (p : Post)
    → find (key_of n) posts ≡ some p
    → id_of (find (key_of n) (upsert n time at posts)) ≡ p.id
id-upsert n time at posts p e = ap id_of (find-upsert n time at posts p e) ∙ same_id
  where
    same_id : (update_row (key_of n) (project n time at) p).id ≡ p.id
    same_id = elim (Bool-cases (key_of n p)) [ inl y ↦ rw y | inr m ↦ rw m ]

module _ (tools : Tools) (f : Fetched) (id : ℕ) where
  count_others :
      (cs ds : List Comment)
      → count (of_post id) (filter (λ c. not (of_post id c)) cs ++ ds) ≡ count (of_post id) ds
  count_others [] ds = refl
  count_others (c ∷ cs) ds = elim (Bool-cases (of_post id c)) [
    | inl y ↦ rw y (count_others cs ds)
    | inr n ↦ rw n (rw n (count_others cs ds))
  ]

  count_rows :
      (new : List NewComment) → count (of_post id) (map (comment_row tools f id) new) ≡ length new
  count_rows [] = refl
  count_rows (c ∷ new) = ground (arith, count_rows new)

  -- The comments that are written in their place are as many as the post has.
  replace_comments-count :
      (new : List NewComment) (cs : List Comment)
      → Ensures (λ ds. count (of_post id) ds ≡ length new) (replace_comments tools f id new cs)
  unfolding replace_comments
  replace_comments-count new cs =
      Ensures-raise_if _ _ _
        λ _. Ensures-ok _ (count_others cs (map (comment_row tools f id) new) ∙ count_rows new)

  comments_if-count :
      (b : Bool) (new : List NewComment) (cs : List Comment)
      → count (of_post id) cs ≤ length new
      → Ensures
          (λ ds. count (of_post id) cs ≤ count (of_post id) ds)
          (comments_if b tools f id new cs)
  comments_if-count true new cs le = record {
    at = λ ds e. omega (arith, le, (replace_comments-count new cs).at ds e);
  }
  comments_if-count false new cs le = Ensures-ok _ (omega arith)

-- no fewer comments of the post than before
abbrev pub NoFewer : Store → ℕ → StoreResult × Store → Type 0
NoFewer s id r = count (of_post id) s.comments ≤ count (of_post id) r.1.comments

module _ (tools : Tools) (s : Store) (n : NewPost) (f : Fetched) (at : ℕ) (p : Post)
    (found : find (key_of n) s.archive.posts ≡ some p) where
  grown :
      (b : Bool) (id : ℕ) (comments : List Comment)
      → count (of_post p.id) s.comments ≤ length n.comments
      → id ≡ p.id
      → comments_if b tools f id n.comments s.comments ≡ ok comments
      → count (of_post p.id) s.comments ≤ count (of_post p.id) comments
  grown b id comments le same e =
      (comments_if-count tools f p.id b n.comments s.comments le).at comments
        (ap (λ i. comments_if b tools f i n.comments s.comments) (sym same) ∙ e)

  put_body-NoFewer :
      count (of_post p.id) s.comments ≤ length n.comments
      → Ensures (NoFewer s p.id) (put_body tools s n f at (some p))
  unfolding put_body add_capture
  put_body-NoFewer le = Ensures-raise_if _ _ _ λ _. Ensures-raise_if _ _ _ λ _.
      Ensures-raise_if _ _ _ λ _. Ensures-bind _ _ λ comments e.
        Ensures-bind _ _
          λ b _. Ensures-ok _ (grown _ _ comments le (id-upsert n _ at s.archive.posts p found) e)

  keep_body-NoFewer :
      (lease : Lease) (version : ℕ) → Ensures (NoFewer s p.id) (keep_body s n f at p lease version)
  unfolding keep_body add_capture
  keep_body-NoFewer lease version = Ensures-bind _ _ λ a _. Ensures-ok _ (omega arith)

  -- a list is taken over only if it is not shorter than the stored one
  short_or_long :
      (lease : Lease) (version expected : ℕ)
      → length n.comments < expected
      → Ensures (NoFewer s p.id) (
          store_or_keep tools s n f at
            (some p)
            (short_of s n p lease (some version) (some expected)))
  unfolding store_or_keep
  short_or_long lease version expected lt = elim (Bool-cases (ltb (length n.comments) expected)) [
    | inr m ↦ absurd (not_less (length n.comments) expected lt m)
    | inl y ↦ elim (Bool-cases (ltb (length n.comments) (count (of_post p.id) s.comments))) [
      | inl k ↦ rw (y, k) (keep_body-NoFewer lease version)
      | inr k ↦
          rw (y, k)
            (put_body-NoFewer (at_least (length n.comments) (count (of_post p.id) s.comments) k))
    ]
  ]
    where
      not_less : (a b : ℕ) → a < b → ltb a b ≡ false → ⊥
      not_less a b lt h = absurd (ground (arith, lt, h))

      at_least : (a b : ℕ) → ltb a b ≡ false → b ≤ a
      at_least a b h = ground arith

shortage-eq :
    (s : Store) (n : NewPost) (l : Option Lease) (lease : Lease) (p : Post) (version expected : ℕ)
    → l ≡ some lease
    → lease.expected_comment_count ≡ some expected
    → p.latest_version_id ≡ some version
    → shortage s n l (some p) ≡ short_of s n p lease (some version) (some expected)
unfolding shortage
shortage-eq s n l lease p version expected leased more has =
    ap (λ x. shortage s n x (some p)) leased
    ∙ ap (λ v. short_of s n p lease v lease.expected_comment_count) has
    ∙ ap (λ x. short_of s n p lease (some version) x) more

-- A fetch that brings fewer comments than its lease expects leaves a post whose body is stored with no
-- fewer comments than it had.
pub store_post-NoFewer :
    (tools : Tools) (s : Store) (n : NewPost) (f : Fetched) (lease : Lease) (p : Post)
    (version expected : ℕ) (r : StoreResult) (t : Store)
    → f.lease ≡ some lease
    → lease.expected_comment_count ≡ some expected
    → find (key_of n) s.archive.posts ≡ some p
    → p.latest_version_id ≡ some version
    → length n.comments < expected
    → store_post tools s n f ≡ ok (r, t)
    → count (of_post p.id) s.comments ≤ count (of_post p.id) t.comments
store_post-NoFewer tools s n f lease p version expected r t leased more found has lt e =
    stores.at (r, t) e
  where
    stores : Ensures (NoFewer s p.id) (store_post tools s n f)
    stores =
        unfold store_post in
        Ensures-bind _ _ λ at _. Ensures-bind _ _ λ u _.
          subst
            (λ q.
              Ensures (NoFewer s p.id) (store_or_keep tools s n f at q (shortage s n f.lease q)))
            (sym found)
            (subst (λ x. Ensures (NoFewer s p.id) (store_or_keep tools s n f at (some p) x))
              (sym (shortage-eq s n f.lease lease p version expected leased more has))
              (short_or_long tools s n f at p found lease version expected lt))
