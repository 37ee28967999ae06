-- ===== src/Frontier/Keys.antt =====
-- The primary key (board_id, external_post_id) of `crawl_frontier`: which updates leave it alone,
-- and what is known of the rows of a table where no key stands twice.
use mathlib.Core.Path.{subst}
use re_dstm.Prelude.{
  ℕ, String, ◌≡◌, refl, sym, ap, ◌∙◌, inl, inr, Bool, true, false, ◌&&◌, Option, none, some, List,
  [], ◌∷◌, arith, str_eq_iff, str_eq_refl, if◌then◌else◌, Bool-cases, All, All-imp, All-and, count,
  update_row, update_where, All-update_where, find, map_row, find-update_where, any,
}
use re_dstm.Frontier.Table.{Row, at}

pub record KeepsKey (f : Row → Row) : Type 0 where
  pub board : (r : Row) → (f r).board_id ≡ r.board_id
  pub post : (r : Row) → (f r).external_post_id ≡ r.external_post_id

-- the rows of `rs` have another key than `r`
abbrev pub Others : Row → List Row → Type 0
Others r = All (λ s. at r.board_id r.external_post_id s ≡ false)

abbrev pub UniqueKeys : List Row → Type 0
UniqueKeys [] = Unit
UniqueKeys (r ∷ rs) = Others r rs × UniqueKeys rs

pub at_self : (r : Row) → at r.board_id r.external_post_id r ≡ true
at_self r = ground (arith, str_eq_refl r.board_id)

pub at-eq_board : (b : String) (i : ℕ) (r : Row) → at b i r ≡ true → r.board_id ≡ b
at-eq_board b i r h = (str_eq_iff r.board_id b).0 (ground arith)

pub at-eq_post : (b : String) (i : ℕ) (r : Row) → at b i r ≡ true → r.external_post_id ≡ i
at-eq_post b i r h = ground arith

-- Rows under one key answer each test for a key alike.
pub at_same :
    (b : String) (i : ℕ) (r s : Row)
    → at b i r ≡ true
    → at r.board_id r.external_post_id s ≡ at b i s
at_same b i r s h = rw (at-eq_board b i r h, at-eq_post b i r h)

pub at_swap :
    (b : String) (i : ℕ) (r s : Row)
    → at b i r ≡ true
    → at s.board_id s.external_post_id r ≡ at b i s
at_swap b i r s h =
    rw (at-eq_board b i r h, at-eq_post b i r h)
      (ground (arith, str_eq_iff b s.board_id, str_eq_iff s.board_id b))

module _ (f : Row → Row) (k : KeepsKey f) where
  pub at-keep : (b : String) (i : ℕ) (r : Row) → at b i (f r) ≡ at b i r
  at-keep b i r = rw (k.board r, k.post r)

  module _ (p : Row → Bool) where
    pub at-update_row : (b : String) (i : ℕ) (r : Row) → at b i (update_row p f r) ≡ at b i r
    at-update_row b i r = elim (Bool-cases (p r)) [ inl e ↦ rw e (at-keep b i r) | inr e ↦ rw e ]

    pub All-at-update_where :
        (b : String) (i : ℕ) (rs : List Row)
        → All (λ s. at b i s ≡ false) rs
        → All (λ s. at b i s ≡ false) (update_where p f rs)
    All-at-update_where b i rs h =
        All-update_where (λ s. at b i s ≡ false) p f (λ s _ e. at-keep b i s ∙ e) rs h

    Others-update_row : (r : Row) (rs : List Row) → Others r rs → Others (update_row p f r) rs
    Others-update_row r rs h = elim (Bool-cases (p r)) [
      | inl e ↦ rw e (rw (k.board r, k.post r) h)
      | inr e ↦ rw e h
    ]

    pub UniqueKeys-update_where : (rs : List Row) → UniqueKeys rs → UniqueKeys (update_where p f rs)
    unfolding update_where
    UniqueKeys-update_where [] u = tt
    UniqueKeys-update_where (r ∷ rs) u = (
      Others-update_row r (update_where p f rs)
          (All-at-update_where r.board_id r.external_post_id rs u.0),
      UniqueKeys-update_where rs u.1,
    )

    -- What the update does to the row under a key.
    pub find_at-update_where :
        (b : String) (i : ℕ) (rs : List Row)
        → find (at b i) (update_where p f rs) ≡ map_row (update_row p f) (find (at b i) rs)
    find_at-update_where b i rs = find-update_where (at b i) p f (at-update_row b i) rs

pub find_at :
    (b : String) (i : ℕ) (rs : List Row) (r : Row) → find (at b i) rs ≡ some r → at b i r ≡ true
unfolding find
find_at b i [] r e = cc
find_at b i (s ∷ rs) r e = elim (Bool-cases (at b i s)) [
  | inl k ↦ let e' : some s ≡ some r = rw k at e in let same : s ≡ r = cc in rw (← same) k
  | inr k ↦ find_at b i rs r (rw k at e)
]

-- No row is under the key if the key finds none, and the other way round.
pub find-none :
    (b : String) (i : ℕ) (rs : List Row) → All (λ s. at b i s ≡ false) rs → find (at b i) rs ≡ none
unfolding find
find-none b i [] h = refl
find-none b i (s ∷ rs) h = rw h.0 (find-none b i rs h.1)

pub any-false :
    (b : String) (i : ℕ) (rs : List Row) → any (at b i) rs ≡ false → All (λ s. at b i s ≡ false) rs
any-false b i [] h = tt
any-false b i (s ∷ rs) h = elim (Bool-cases (at b i s)) [
  | inl k ↦ cc (rw k at h)
  | inr k ↦ (k, any-false b i rs (rw k at h))
]

-- In a table with unique keys, what holds of the row that a key finds holds of all rows under it.
pub All-under_key :
    (P : Row → Type 0) (b : String) (i : ℕ) (rs : List Row) (r : Row)
    → UniqueKeys rs
    → find (at b i) rs ≡ some r
    → P r
    → All (λ s. at b i s ≡ true → P s) rs
unfolding find
All-under_key P b i [] r u e h = tt
All-under_key P b i (s ∷ rs) r u e h = elim (Bool-cases (at b i s)) [
  | inl k ↦
      let e' : some s ≡ some r = rw k at e in
      (
        λ _. subst P (sym (some_eq s r e')) h,
        All-imp (λ t. at s.board_id s.external_post_id t ≡ false) (λ t. at b i t ≡ true → P t)
            (λ t o a. absurd (true_ne (sym a ∙ sym (at_same b i s t k) ∙ o))) rs u.0,
      )
  | inr k ↦ (λ a. absurd (true_ne (sym a ∙ k)), All-under_key P b i rs r u.1 (rw k at e) h)
]
  where
    some_eq : (s t : Row) → some s ≡ some t → s ≡ t
    some_eq s t e = cc

    true_ne : true ≡ false → ⊥
    true_ne e = cc

count_others :
    (b : String) (i : ℕ) (p : Row → Bool) (rs : List Row)
    → All (λ s. at b i s ≡ false) rs
    → count (λ s. at b i s && p s) rs ≡ 0
count_others b i p [] h = refl
count_others b i p (s ∷ rs) h = rw h.0 (count_others b i p rs h.1)

abbrev pub passes : (Row → Bool) → Option Row → ℕ
passes p none = 0
passes p (some r) = if p r then 1 else 0

-- The row count of a statement for one key: 1 if the key finds a row that passes the test, else 0.
pub count_at :
    (b : String) (i : ℕ) (p : Row → Bool) (rs : List Row)
    → UniqueKeys rs
    → count (λ s. at b i s && p s) rs ≡ passes p (find (at b i) rs)
unfolding find
count_at b i p [] u = refl
count_at b i p (s ∷ rs) u = elim (Bool-cases (at b i s)) [
  | inl k ↦ rw k (rw (count_others b i p rs (others k)))
  | inr k ↦ rw k (count_at b i p rs u.1)
]
  where
    others : at b i s ≡ true → All (λ t. at b i t ≡ false) rs
    others k =
        All-imp (λ t. at s.board_id s.external_post_id t ≡ false) (λ t. at b i t ≡ false)
          (λ t o. sym (at_same b i s t k) ∙ o) rs u.0

abbrev pub keep_row : (Row → Bool) → Option Row → Option Row
keep_row p none = none
keep_row p (some r) = if p r then some r else none

-- A search for a key and a further test: the key's row, if it passes.
pub find_at_and :
    (b : String) (i : ℕ) (p : Row → Bool) (rs : List Row)
    → UniqueKeys rs
    → find (λ s. at b i s && p s) rs ≡ keep_row p (find (at b i) rs)
unfolding find
find_at_and b i p [] u = refl
find_at_and b i p (s ∷ rs) u = elim (Bool-cases (at b i s)) [
  | inr k ↦ rw k (find_at_and b i p rs u.1)
  | inl k ↦ elim (Bool-cases (p s)) [
    | inl t ↦ rw k (rw t)
    | inr f ↦ rw k (rw f (find_at_and b i p rs u.1 ∙ ap (keep_row p) (find-none b i rs (others k))))
  ]
]
  where
    others : at b i s ≡ true → All (λ t. at b i t ≡ false) rs
    others k =
        All-imp (λ t. at s.board_id s.external_post_id t ≡ false) (λ t. at b i t ≡ false)
          (λ t o. sym (at_same b i s t k) ∙ o) rs u.0

-- the row that a key finds, by the row's own key
abbrev pub Itself : List Row → Row → Type 0
Itself rows r = find (at r.board_id r.external_post_id) rows ≡ some r

at_other :
    (r s : Row)
    → at r.board_id r.external_post_id s ≡ false
    → at s.board_id s.external_post_id r ≡ false
at_other r s h = elim (Bool-cases (at s.board_id s.external_post_id r)) [
  | inr n ↦ n
  | inl y ↦ absurd (clash (at_same s.board_id s.external_post_id r s y ∙ at_self s))
]
  where
    clash : at r.board_id r.external_post_id s ≡ true → ⊥
    clash e = cc

-- Under a primary key, each row is the one that its key finds.
pub All-Itself : (rows : List Row) → UniqueKeys rows → All (Itself rows) rows
unfolding find
All-Itself [] u = tt
All-Itself (r ∷ rows) u = (
  rw (at_self r),
  All-imp _ (Itself (r ∷ rows)) (λ s h. rw (at_other r s h.0) h.1) rows
      (All-and (λ s. at r.board_id r.external_post_id s ≡ false) (Itself rows) rows u.0
        (All-Itself rows u.1)),
)
