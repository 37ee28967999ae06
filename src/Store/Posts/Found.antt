-- ===== src/Store/Posts/Found.antt =====
-- That what `store_post` stores is found again.
use mathlib.Core.Path.{subst}
use re_dstm.Prelude.{
  find_passes, str_eq_iff, ℕ, suc, String, ◌≡◌, refl, sym, ap, ◌∙◌, inl, inr, Bool, true, false,
  not, Option, none, some, List, [], ◌∷◌, ◌++◌, arith, str_eq_refl, ℤ, ok, ltb, ◌==◌, Bool-cases,
  Option-cases, any, find, find_passes, find-update_where, map_row, update_row, length,
}
use re_dstm.Prelude.Ensures.{Ensures, Ensures-ok, Ensures-raise_if, Ensures-bind}
use re_dstm.Frontier.Table.{Post, Archive, State, retry, dead}
use re_dstm.Frontier.Clock.{DateTime}
use re_dstm.Frontier.Lease.{Lease, transition_lease, complete_lease}
use re_dstm.Frontier.Outcome.{retry_capped, dead_code}
use re_dstm.Store.Tables.{Version, Store, add_capture}
use re_dstm.Store.Discovered.{id_of, max_id}
use re_dstm.Store.Bodies.{
  NewPost, Fetched, Tools, StoreResult, key_of, shortage, project, upsert, version_of, new_version,
  versions_for, add_version, is_latest, is_version, new_post, max_version,
}
use re_dstm.Store.Posts.{
  with_version, point_to, end_expected, end_lease, put_body, store_or_keep, store_post,
}
use re_dstm.Store.Posts.Kept.{find-upsert}

-- The end of a lease leaves the posts alone.
abbrev SamePosts : Archive → Archive → Type 0
SamePosts a b = b.posts ≡ a.posts

transition_lease-SamePosts :
    (a : Archive) (lease : Lease) (state : State) (code : Option String) (next : Option DateTime)
    → Ensures (SamePosts a) (transition_lease a lease state code next)
unfolding transition_lease
transition_lease-SamePosts a lease state code next = Ensures-raise_if _ _ _ λ _.
    Ensures-raise_if _ _ _
      λ _. Ensures-bind _ _ λ time _. Ensures-raise_if _ _ _ λ _. Ensures-ok _ refl

complete_lease-SamePosts :
    (a : Archive) (lease : Lease) (c : Option ℤ) → Ensures (SamePosts a) (complete_lease a lease c)
unfolding complete_lease
complete_lease-SamePosts a lease c =
    Ensures-raise_if _ _ _ λ _. Ensures-raise_if _ _ _ λ _. Ensures-ok _ refl

retry_capped-SamePosts :
    (a : Archive) (lease : Lease) (code : String) (at : DateTime)
    → Ensures (SamePosts a) (retry_capped a lease code at)
unfolding retry_capped
retry_capped-SamePosts a lease code at = elim (Option-cases (dead_code code lease.attempts)) [
  | inl n ↦
      rw (n, retry_capped)
        (Ensures-bind _ _
          λ next _. transition_lease-SamePosts a lease retry (some code) (some next))
  | inr (c, y) ↦ rw (y, retry_capped) (transition_lease-SamePosts a lease dead (some c) none)
]

end_lease-SamePosts :
    (a : Archive) (n : NewPost) (at : DateTime) (lease : Option Lease)
    → Ensures (SamePosts a) (end_lease a n at lease)
unfolding end_lease
end_lease-SamePosts a n at none = Ensures-ok _ refl
end_lease-SamePosts a n at (some lease) = expected lease.expected_comment_count
  where
    expected : (e : Option ℕ) → Ensures (SamePosts a) (end_expected a lease n at e)
    expected none = complete_lease-SamePosts a lease _
    expected (some e) = elim (Bool-cases (ltb (length n.comments) e)) [
      | inl y ↦ rw y (retry_capped-SamePosts a lease "incomplete_comments" at)
      | inr m ↦ rw m (complete_lease-SamePosts a lease _)
    ]

module _ {A : Type 0} (p : A → Bool) where
  find-append_new :
      (xs : List A) (y : A) → find p xs ≡ none → p y ≡ true → find p (xs ++ y ∷ []) ≡ some y
  unfolding find
  find-append_new [] y e t = rw t
  find-append_new (x ∷ xs) y e t = elim (Bool-cases (p x)) [
    | inl k ↦ let found : some x ≡ none = rw k at e in cc
    | inr k ↦ rw k (find-append_new xs y (rw k at e) t)
  ]

  any-none : (xs : List A) → find p xs ≡ none → any p xs ≡ false
  unfolding find
  any-none [] e = refl
  any-none (x ∷ xs) e = elim (Bool-cases (p x)) [
    | inl k ↦ let found : some x ≡ none = rw k at e in cc
    | inr k ↦ rw k (any-none xs (rw k at e))
  ]

-- The version of the hashes is there, under the id that is given.
module _ (tools : Tools) (n : NewPost) (f : Fetched) (at id : ℕ) where
  record HasVersion (v : ℕ × List Version) : Type 0 where
    version : Version
    kept : find (version_of id n) v.1 ≡ some version
    named : version.id ≡ v.0

  new_matches : (i : ℕ) → version_of id n (new_version tools n f at id i) ≡ true
  new_matches i = ground (arith, str_eq_refl n.content_sha256, str_eq_refl n.comments_sha256)

  versions_for-HasVersion :
      (versions : List Version) (o : Option Version)
      → find (version_of id n) versions ≡ o
      → HasVersion (versions_for tools n f at id versions o)
  versions_for-HasVersion versions (some v) e = record { version = v; kept = e; named = refl }
  versions_for-HasVersion versions none e = record {
    version = new_version tools n f at id (suc (max_version versions));
    kept =
        find-append_new (version_of id n) versions _ e (new_matches (suc (max_version versions)));
    named = refl;
  }

  add_version-HasVersion :
      (versions : List Version) → HasVersion (add_version tools n f at id versions)
  unfolding add_version
  add_version-HasVersion versions =
      versions_for-HasVersion versions (find (version_of id n) versions) refl

-- The post of the key after the upsert: its version is that of the post before.
record Upserted (n : NewPost) (before : Option Post) (posts : List Post) : Type 0 where
  row : Post
  found : find (key_of n) posts ≡ some row
  titled : row.title ≡ n.title
  latest : (version : ℕ) → is_latest before version ≡ true → row.latest_version_id ≡ some version

latest_of :
    (p q : Post) (version : ℕ)
    → q.latest_version_id ≡ p.latest_version_id
    → is_latest (some p) version ≡ true
    → q.latest_version_id ≡ some version
latest_of p q version e h = e ∙ known p.latest_version_id h
  where
    known : (o : Option ℕ) → is_version o version ≡ true → o ≡ some version
    known none h = cc
    known (some v) h = ap some (ground arith)

upsert-Upserted :
    (n : NewPost) (time : Option String) (at : ℕ) (posts : List Post) (before : Option Post)
    → find (key_of n) posts ≡ before
    → Upserted n before (upsert n time at posts)
upsert-Upserted n time at posts (some p) e = record {
  row = update_row (key_of n) (project n time at) p;
  found = find-upsert n time at posts p e;
  titled = titles (find_passes (key_of n) posts p e);
  latest = λ version h.
      latest_of p (update_row (key_of n) (project n time at) p) version keeps_version h;
}
  where
    titles : key_of n p ≡ true → (update_row (key_of n) (project n time at) p).title ≡ n.title
    titles y = rw y

    keeps_version :
        (update_row (key_of n) (project n time at) p).latest_version_id ≡ p.latest_version_id
    keeps_version = elim (Bool-cases (key_of n p)) [ inl y ↦ rw y | inr m ↦ rw m ]
upsert-Upserted n time at posts none e = record {
  row = new_post n time at (suc (max_id posts));
  found =
      unfold upsert in
      rw (any-none (key_of n) posts e) (find-append_new (key_of n) posts _ e new_key);
  titled = refl;
  latest = λ v h. absurd (clash h);
}
  where
    new_key : key_of n (new_post n time at (suc (max_id posts))) ≡ true
    new_key = ground (arith, str_eq_refl n.board_id)

    clash : false ≡ true → ⊥
    clash h = cc

abbrev by_id : ℕ → Post → Bool
by_id id p = p.id == id

-- The pointer to the latest version: it is set if it must change, else it is there already.
pointed :
    (n : NewPost) (before : Option Post) (posts : List Post) (b : Bool) (version : ℕ)
    → Upserted n before posts
    → not (is_latest before version) ≡ b
    → (q : Post) × (find (key_of n) (point_to b (id_of (find (key_of n) posts)) version posts)
        ≡ some q)
      × (q.latest_version_id ≡ some version)
      × (q.title ≡ n.title)
pointed n before posts false version u e =
    (u.row, u.found, u.latest version (ground arith), u.titled)
pointed n before posts true version u e = (
  with_version version u.row,
  find-update_where (key_of n) (by_id (id_of (find (key_of n) posts))) (with_version version) keeps
        posts
      ∙ ap (map_row (update_row (by_id (id_of (find (key_of n) posts))) (with_version version)))
          u.found
      ∙ rw (same_id (id_of (find (key_of n) posts)) (ap id_of u.found)),
  refl,
  u.titled,
)
  where
    keeps :
        (q : Post)
        → key_of n (update_row (by_id (id_of (find (key_of n) posts))) (with_version version) q)
          ≡ key_of n q
    keeps q = elim (Bool-cases (by_id (id_of (find (key_of n) posts)) q)) [
      | inl y ↦ rw y
      | inr m ↦ rw m
    ]

    same_id : (i : ℕ) → i ≡ u.row.id → (u.row.id == i) ≡ true
    same_id i e = ground (arith, e)

version_of-hashes :
    (id : ℕ) (n : NewPost) (versions : List Version) (v : Version)
    → find (version_of id n) versions ≡ some v
    → (v.post_id ≡ id)
      × (v.content_sha256 ≡ n.content_sha256)
      × (v.comments_sha256 ≡ n.comments_sha256)
version_of-hashes id n versions v e =
    let h : version_of id n v ≡ true = find_passes (version_of id n) versions v e in
    (
      ground arith,
      (str_eq_iff v.content_sha256 n.content_sha256).0 (ground arith),
      (str_eq_iff v.comments_sha256 n.comments_sha256).0 (ground arith),
    )

-- the post is under its key, points to the version, and the version has the post's hashes
pub record IsStored (n : NewPost) (r : StoreResult × Store) : Type 0 where
  pub row : Post
  pub found : find (key_of n) r.1.archive.posts ≡ some row
  pub titled : row.title ≡ n.title
  pub latest : row.latest_version_id ≡ some r.0.version_id
  pub version : Version
  pub kept : find (version_of r.0.post_id n) r.1.versions ≡ some version
  pub named : version.id ≡ r.0.version_id
  pub of_post : version.post_id ≡ r.0.post_id
  pub has_body : version.content_sha256 ≡ n.content_sha256
  pub has_comments : version.comments_sha256 ≡ n.comments_sha256

module _ (tools : Tools) (s : Store) (n : NewPost) (f : Fetched) where
  assembled :
      (at : ℕ) (before : Option Post) (posts : List Post) (v : ℕ × List Version)
      (r : StoreResult × Store)
      → Upserted n before posts
      → HasVersion tools n f at (id_of (find (key_of n) posts)) v
      → r.0.post_id ≡ id_of (find (key_of n) posts)
      → r.0.version_id ≡ v.0
      → r.1.versions ≡ v.1
      → r.1.archive.posts
        ≡ point_to (not (is_latest before v.0)) (id_of (find (key_of n) posts)) v.0 posts
      → IsStored n r
  assembled at before posts v r u h id named versions rows =
      let (q, e, l, t) = pointed n before posts (not (is_latest before v.0)) v.0 u refl in
      record {
        row = q;
        found = ap (find (key_of n)) rows ∙ e;
        titled = t;
        latest = l ∙ ap some (sym named);
        version = h.version;
        kept = is_kept h;
        named = h.named ∙ sym named;
        of_post = (version_of-hashes _ n r.1.versions h.version (is_kept h)).0;
        has_body = (version_of-hashes _ n r.1.versions h.version (is_kept h)).1;
        has_comments = (version_of-hashes _ n r.1.versions h.version (is_kept h)).2;
      }
    where
      is_kept :
          (h : HasVersion tools n f at (id_of (find (key_of n) posts)) v)
          → find (version_of r.0.post_id n) r.1.versions ≡ some h.version
      is_kept h = ap (λ i. find (version_of i n) r.1.versions) id ∙ ap (find _) versions ∙ h.kept

  put_body-IsStored :
      (at : ℕ) → Ensures (IsStored n) (put_body tools s n f at (find (key_of n) s.archive.posts))
  unfolding put_body add_capture
  put_body-IsStored at = Ensures-raise_if _ _ _ λ _. Ensures-raise_if _ _ _ λ _.
      Ensures-raise_if _ _ _ λ _. Ensures-bind _ _ λ comments _. Ensures-bind _ _ λ b e.
        Ensures-ok _ (
          assembled at (find (key_of n) s.archive.posts) _ _ _
            (upsert-Upserted n (tools.source_time n.created_at_raw f.captured_at) at s.archive.posts
              (find (key_of n) s.archive.posts) refl)
            (add_version-HasVersion tools n f at _ s.versions) refl refl refl
            ((end_lease-SamePosts _ n f.captured_at f.lease).at b e))

  -- A post that `store_post` stores, its comments being none too few, is then under its key with its
  -- title, and its latest version is the one that has the hashes of its body and comments.
  pub store_post-IsStored :
      (r : StoreResult) (t : Store)
      → shortage s n f.lease (find (key_of n) s.archive.posts) ≡ none
      → store_post tools s n f ≡ ok (r, t)
      → IsStored n (r, t)
  store_post-IsStored r t enough e = stores.at (r, t) e
    where
      stores : Ensures (IsStored n) (store_post tools s n f)
      stores =
          unfold store_post store_or_keep in
          Ensures-bind _ _ λ at _. Ensures-bind _ _ λ u _.
            subst
              (λ x.
                Ensures (IsStored n)
                  (store_or_keep tools s n f at (find (key_of n) s.archive.posts) x))
              (sym enough) (put_body-IsStored at)
