-- ===== src/Runner/Combined/Gathered.antt =====
-- Rows of the reports that are gathered early are gathered again as they are.
use re_dstm.Prelude.{
  String, ◌≡◌, refl, ap, ◌∙◌, inl, inr, true, false, List, [], ◌∷◌, ◌++◌, str_eq, Bool-cases, All,
}
use re_dstm.Runner.Combined.{Report, put, put_all, gather}

module _ {A : Type 0} (key : A → String) (merge : A → A → A) where
  gather-append :
      (rows : Report → List A) (acc : List A) (rs ss : List Report)
      → gather key merge rows acc (rs ++ ss)
        ≡ gather key merge rows (gather key merge rows acc rs) ss
  unfolding gather
  gather-append rows acc [] ss = refl
  gather-append rows acc (r ∷ rs) ss = gather-append rows (put_all key merge acc (rows r)) rs ss

  -- no row has the key
  abbrev Lacks : String → List A → Type 0
  Lacks k = All (λ y. str_eq k (key y) ≡ false)

  abbrev Distinct : List A → Type 0
  Distinct [] = Unit
  Distinct (x ∷ xs) = Lacks (key x) xs × Distinct xs

  put_all-cons :
      (x : A) (acc ys : List A)
      → Lacks (key x) ys
      → put_all key merge (x ∷ acc) ys ≡ x ∷ put_all key merge acc ys
  unfolding put_all put
  put_all-cons x acc [] h = refl
  put_all-cons x acc (y ∷ ys) h = rw (h.0) (put_all-cons x (put key merge y acc) ys h.1)

  -- Rows whose keys are all different stay as they are.
  put_all-Distinct : (xs : List A) → Distinct xs → put_all key merge [] xs ≡ xs
  unfolding put_all put
  put_all-Distinct [] d = refl
  put_all-Distinct (x ∷ xs) d = put_all-cons x [] xs d.0 ∙ ap (λ l. x ∷ l) (put_all-Distinct xs d.1)

  module _ (keeps : (x y : A) → str_eq (key y) (key x) ≡ true → key (merge y x) ≡ key y) where
    Lacks-put :
        (k : String) (x : A) (ys : List A)
        → str_eq k (key x) ≡ false
        → Lacks k ys
        → Lacks k (put key merge x ys)
    unfolding put
    Lacks-put k x [] e h = (e, tt)
    Lacks-put k x (y ∷ ys) e h = elim (Bool-cases (str_eq (key y) (key x))) [
      | inl same ↦ rw same (rw (keeps x y same) h)
      | inr other ↦ rw other (h.0, Lacks-put k x ys e h.1)
    ]

    put-Distinct : (x : A) (ys : List A) → Distinct ys → Distinct (put key merge x ys)
    unfolding put
    put-Distinct x [] d = (tt, tt)
    put-Distinct x (y ∷ ys) d = elim (Bool-cases (str_eq (key y) (key x))) [
      | inl same ↦ rw same (rw (keeps x y same) d)
      | inr other ↦ rw other (Lacks-put (key y) x ys other d.0, put-Distinct x ys d.1)
    ]

    put_all-Distinct_acc : (acc xs : List A) → Distinct acc → Distinct (put_all key merge acc xs)
    unfolding put_all
    put_all-Distinct_acc acc [] d = d
    put_all-Distinct_acc acc (x ∷ xs) d =
        put_all-Distinct_acc (put key merge x acc) xs (put-Distinct x acc d)

    gather-Distinct :
        (rows : Report → List A) (acc : List A) (rs : List Report)
        → Distinct acc
        → Distinct (gather key merge rows acc rs)
    unfolding gather
    gather-Distinct rows acc [] d = d
    gather-Distinct rows acc (r ∷ rs) d =
        gather-Distinct rows (put_all key merge acc (rows r)) rs
          (put_all-Distinct_acc acc (rows r) d)

    -- Rows that were gathered early are gathered again as they are.
    pub gather_again :
        (rows : Report → List A) (c : Report) (rs later : List Report)
        → rows c ≡ gather key merge rows [] rs
        → gather key merge rows [] (c ∷ later) ≡ gather key merge rows [] (rs ++ later)
    unfolding gather
    gather_again rows c rs later e =
        rw
          (
            gather-append rows [] rs later,
            ← put_all-Distinct (gather key merge rows [] rs) (gather-Distinct rows [] rs tt),
            ← e,
          )
          refl
