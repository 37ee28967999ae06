-- ===== src/Runner/Combined/Selected.antt =====
-- The run of the last report that selected posts.
use re_dstm.Prelude.{
  ℕ, ◌+◌, ◌<◌, String, ◌≡◌, refl, ◌⊎◌, inl, inr, true, false, ◌&&◌, Option, none, some, is_some,
  List, [], ◌∷◌, ◌++◌, arith, ltb, if◌then◌else◌, Bool-cases, sum_by, All,
}
use re_dstm.Runner.Combined.{Report, pick, selected_run, run_or}

-- A report that selected posts has a run.
abbrev pub HasRun : Report → Type 0
HasRun r = 0 < r.selected_posts → is_some r.run_id ≡ true

-- whether any report selected posts, and a run of it that was found
abbrev IsFound : ℕ → Option String → Option String → Type 0
IsFound n found run = ((n ≡ 0) × (run ≡ found)) ⊎ ((0 < n) × (is_some run ≡ true))

IsFound-some :
    (n : ℕ) (found run : Option String)
    → is_some found ≡ true
    → IsFound n found run
    → is_some run ≡ true
IsFound-some n found run e (inl h) = rw (h.1) e
IsFound-some n found run e (inr h) = h.1

IsFound-add :
    (k n : ℕ) (found run : Option String) → k ≡ 0 → IsFound n found run → IsFound (k + n) found run
IsFound-add k n found run e (inl h) = inl (omega (arith, h.0), h.1)
IsFound-add k n found run e (inr h) = inr (omega (arith, h.0), h.1)

abbrev pub selected : Report → ℕ
selected r = r.selected_posts

pub selected_run-IsFound :
    (found : Option String) (rs : List Report)
    → All HasRun rs
    → IsFound (sum_by selected rs) found (selected_run found rs)
unfolding selected_run
selected_run-IsFound found [] h = inl (refl, refl)
selected_run-IsFound found (r ∷ rs) h = elim (Bool-cases (ltb 0 r.selected_posts)) [
  | inl y ↦
      let has : is_some r.run_id ≡ true = h.0 (some_posts r.selected_posts y) in
      let rest = selected_run-IsFound r.run_id rs h.1 in
      rw (y, has)
        (inr (
          omega (arith, some_posts r.selected_posts y),
          IsFound-some (sum_by selected rs) r.run_id (selected_run r.run_id rs) has rest,
        ))
  | inr n ↦ rw n (
      IsFound-add r.selected_posts (sum_by selected rs) found (selected_run found rs)
        (no_posts r.selected_posts n) (selected_run-IsFound found rs h.1))
]
  where
    some_posts : (n : ℕ) → ltb 0 n ≡ true → 0 < n
    some_posts n h = ground arith

    no_posts : (n : ℕ) → ltb 0 n ≡ false → n ≡ 0
    no_posts n h = ground arith

pub picked :
    (n : ℕ) (run d : Option String)
    → IsFound n none run
    → (if ltb 0 n && is_some (run_or run d) then run_or run d else none) ≡ run
unfolding run_or
picked n none d (inl h) = rw (h.0) refl
picked n none d (inr h) = cc
picked n (some x) d (inl h) = cc
picked n (some x) d (inr h) = ground (arith, h.0)

pub selected_run-append :
    (found : Option String) (rs ss : List Report)
    → selected_run found (rs ++ ss) ≡ selected_run (selected_run found rs) ss
unfolding selected_run
selected_run-append found [] ss = refl
selected_run-append found (r ∷ rs) ss = selected_run-append (pick found r) rs ss
