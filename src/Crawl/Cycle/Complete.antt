-- ===== src/Crawl/Cycle/Complete.antt =====
-- That a crawl cycle which reports success has visited every board.
use re_dstm.Prelude.{
  ℕ, suc, ◌-◌, String, ◌≡◌, ◌≢◌, refl, sym, ap, ◌∙◌, inl, inr, true, false, Option, none, some,
  List, [], ◌∷◌, ◌++◌, map, arith, ok, Bool-cases, All, length, length-map, count,
}
use re_dstm.Prelude.Ensures.{Ensures, Ensures-ok, Ensures-err}
use re_dstm.Crawl.Boards.{boards}
use re_dstm.Crawl.Session.{Status, session_status}
use re_dstm.Crawl.Worker.{Args, Turn, BoardResult}
use re_dstm.Crawl.Cycle.{Cycle, Next, stop, go_on, visit, and_then, visit_all}
use re_dstm.Crawl.Cycle.Run.{
  is_succeeded, is_good, is_ok, Answer, nothing_left, finished, Start, first_cycle, cycle_report,
  run_boards, run_with, run_cycle, pass_is_over, is_empty,
}
use re_dstm.Crawl.Cycle.Good.{IsClean, IfGood, OneMore, never_good, visit-OneMore}

-- each worker of the boards from the i-th on
abbrev pub AllClean : Args → ℕ → (ℕ → Turn) → ℕ → List String → Type 0
AllClean args started world i [] = Unit
AllClean args started world i (id ∷ ids) =
    IsClean args started (world i) × AllClean args started world (suc i) ids

abbrev board_of : BoardResult → String
board_of r = r.board_id

-- the results that a loop has added
record Complete (args : Args) (started : ℕ) (world : ℕ → Turn) (i : ℕ) (ids : List String)
    (c d : Cycle) : Type 0 where
  before : is_succeeded c.status ≡ true
  new : List BoardResult
  results : d.results ≡ c.results ++ new
  named : map board_of new ≡ ids
  good : All (λ r. is_good r ≡ true) new
  clean : AllClean args started world i ids

append_one :
    (xs : List BoardResult) (y : BoardResult) (ys : List BoardResult)
    → (xs ++ y ∷ []) ++ ys ≡ xs ++ y ∷ ys
append_one [] y ys = refl
append_one (x ∷ xs) y ys = ap (λ zs. x ∷ zs) (append_one xs y ys)

append_none : (xs : List BoardResult) → xs ≡ xs ++ []
append_none [] = refl
append_none (x ∷ xs) = ap (λ zs. x ∷ zs) (append_none xs)

module _ (args : Args) (started : ℕ) (world : ℕ → Turn) where
  Complete-more :
      (i : ℕ) (id : String) (ids : List String) (c d e : Cycle)
      → OneMore args started c id (world i) d
      → Complete args started world (suc i) ids d e
      → Complete args started world i (id ∷ ids) c e
  Complete-more i id ids c d e one rest = record {
    before = one.before;
    new = one.result ∷ rest.new;
    results =
        rest.results
        ∙ ap (λ xs. xs ++ rest.new) one.results
        ∙ append_one c.results one.result rest.new;
    named = rw (one.named, rest.named);
    good = (one.good, rest.good);
    clean = (one.clean, rest.clean);
  }

  stopped :
      (i : ℕ) (id : String) (ids : List String) (c d : Cycle)
      → visit args started c id (world i) ≡ stop d
      → visit_all args started world i (id ∷ ids) c ≡ d
  unfolding visit_all
  stopped i id ids c d e = ap (λ n. and_then n (λ x. visit_all args started world (suc i) ids x)) e

  went_on :
      (i : ℕ) (id : String) (ids : List String) (c d : Cycle)
      → visit args started c id (world i) ≡ go_on d
      → visit_all args started world i (id ∷ ids) c ≡ visit_all args started world (suc i) ids d
  unfolding visit_all
  went_on i id ids c d e = ap (λ n. and_then n (λ x. visit_all args started world (suc i) ids x)) e

  visited-Complete :
      (i : ℕ) (id : String) (ids : List String) (c : Cycle) (next : Next)
      → visit args started c id (world i) ≡ next
      → IfGood (OneMore args started c id (world i)) next
      → ((d : Cycle)
          → is_succeeded (visit_all args started world (suc i) ids d).status ≡ true
          → Complete args started world (suc i) ids d (visit_all args started world (suc i) ids d))
      → is_succeeded (visit_all args started world i (id ∷ ids) c).status ≡ true
      → Complete args started world i (id ∷ ids) c (visit_all args started world i (id ∷ ids) c)
  visited-Complete i id ids c (stop d) e h rest s =
      never_good (
        sym h.judged ∙ ap (λ (x : Cycle). is_succeeded x.status) (sym (stopped i id ids c d e)) ∙ s)
  visited-Complete i id ids c (go_on d) e h rest s =
      let r =
        rest d (ap (λ (x : Cycle). is_succeeded x.status) (sym (went_on i id ids c d e)) ∙ s) in
      rw (went_on i id ids c d e) (Complete-more i id ids c d _ (h.judged r.before) r)

  visit_all-Complete :
      (ids : List String) (i : ℕ) (c : Cycle)
      → is_succeeded (visit_all args started world i ids c).status ≡ true
      → Complete args started world i ids c (visit_all args started world i ids c)
  visit_all-Complete [] i c s =
      unfold visit_all in
      record {
        before = s;
        new = [];
        results = append_none c.results;
        named = refl;
        good = tt;
        clean = tt;
      }
  visit_all-Complete (id ∷ ids) i c s =
      visited-Complete i id ids c (visit args started c id (world i)) refl
        (visit-OneMore args started c id (world i)) (visit_all-Complete ids (suc i)) s

count_good : (rs : List BoardResult) → All (λ r. is_good r ≡ true) rs → count is_good rs ≡ length rs
count_good [] h = refl
count_good (r ∷ rs) h = rw h.0 (ap suc (count_good rs h.1))

empty_nil : (xs : List String) → is_empty xs ≡ true → xs ≡ []
empty_nil [] e = refl
empty_nil (x ∷ xs) e = cc

not_empty : (xs : List String) → is_empty xs ≡ false → xs ≢ []
not_empty [] e = cc
not_empty (x ∷ xs) e = λ eq. absurd (clash (ap is_empty eq))
  where
    clash : false ≡ true → ⊥
    clash e = cc

none_failed :
    (rs new : List BoardResult)
    → rs ≡ new
    → All (λ r. is_good r ≡ true) new
    → length rs - count is_good rs ≡ 0
none_failed rs new e h = rw e (omega (arith, count_good new h))

module _ (args : Args) (start : Start) (world : ℕ → Turn) (since : Option ℕ)
    (id : Option String) where
  abbrev ids : List String
  ids = boards start.table id args.inventory since

  -- what each good answer of a cycle means
  abbrev pub IsComplete : Answer → Type 0
  IsComplete nothing_left = (ids ≡ []) × (boards start.table id true none ≢ [])
  IsComplete (finished r) =
      (map board_of r.results ≡ ids)
      × (r.completed_boards ≡ r.board_count)
      × (r.boards_failed ≡ 0)
      × AllClean args start.started_at world 0 ids
  IsComplete _ = ⊥

  run_boards-IsComplete :
      (run_boards args start world since id ids).is_ok ≡ true
      → IsComplete (finished (run_boards args start world since id ids))
  unfolding run_boards cycle_report
  run_boards-IsComplete s =
      let h =
        visit_all-Complete args start.started_at world ids 0 (first_cycle start.started_at) s in
      (
        ap (map board_of) h.results ∙ h.named,
        ap length h.results ∙ sym (length-map board_of h.new) ∙ ap length h.named,
        none_failed _ h.new h.results h.good,
        h.clean,
      )

  abbrev IfOk : Answer → Type 0
  IfOk answer = is_ok answer ≡ true → IsComplete answer

  over-IsComplete :
      (o : Option ℕ)
      → pass_is_over args start.table o id ≡ true
      → boards start.table id true none ≢ []
  over-IsComplete none e = cc
  over-IsComplete (some t) e = not_empty (boards start.table id true none) (ground arith)

  run_with-IsComplete : (s : Option Status) → IfOk (run_with args start world since id ids s)
  run_with-IsComplete (some s) = λ e. never_good e
  run_with-IsComplete none = run_boards-IsComplete

  run_cycle-Ensures : Ensures IfOk (run_cycle args start world since id)
  unfolding run_cycle
  run_cycle-Ensures = elim (Bool-cases (is_empty ids)) [
    | inl y ↦ elim (Bool-cases (pass_is_over args start.table since id)) [
      | inl over ↦ rw (y, over) (Ensures-ok _ λ _. (empty_nil ids y, over-IsComplete since over))
      | inr n ↦ rw (y, n) (Ensures-err _)
    ]
    | inr n ↦ elim (Bool-cases start.is_locked) [
      | inl y ↦ rw (n, y) (Ensures-err _)
      | inr m ↦ elim (Bool-cases start.pause_exists) [
        | inl y ↦ rw (n, m, y) (Ensures-ok _ λ e. never_good e)
        | inr k ↦ rw (n, m, k) (Ensures-ok _ (run_with-IsComplete (session_status start.login)))
      ]
    ]
  ]

  -- A cycle answers that all is well only if the pass had no board left though the archive has enabled
  -- ones, or its results are those of every board that it was to visit, in order, none of them failed,
  -- and the worker of each reported success and exited with 0.
  pub run_cycle-IsComplete :
      (answer : Answer)
      → run_cycle args start world since id ≡ ok answer
      → is_ok answer ≡ true
      → IsComplete answer
  run_cycle-IsComplete answer e good = run_cycle-Ensures.at answer e good
