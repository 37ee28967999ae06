-- ===== src/Runner/Combined/Folded.antt =====
-- Reports that are combined early lose nothing.
use mathlib.Core.List.{append-nil}
use re_dstm.Prelude.{
  ℕ, String, ◌≡◌, refl, sym, ap, ◌∙◌, Option, none, some, List, [], ◌∷◌, ◌++◌, arith, str_eq_iff,
  length, count, ◌-◌, sum_by, sum_by-append, All, ok,
}
use re_dstm.Runner.Combined.{
  BoardReport, Report, or_else, changed, failed, gather, name_of, add_up, id_of, newer, itself,
  older, last_of, pick, selected_run, run_or, is_ok, if_any, combine, combined_collection_report,
}
use re_dstm.Runner.Combined.Gathered.{gather_again}
use re_dstm.Runner.Combined.Selected.{
  HasRun, selected, selected_run-IsFound, picked, selected_run-append,
}

last_of-append :
    (r : Report) (rs : List Report) (l : Report) (ls : List Report)
    → last_of r (rs ++ l ∷ ls) ≡ last_of l ls
unfolding last_of
last_of-append r [] l ls = refl
last_of-append r (s ∷ rs) l ls = last_of-append s rs l ls

if_any-again : (bs : List BoardReport) (n d : ℕ) → if_any bs n (if_any bs n d) ≡ if_any bs n d
unfolding if_any
if_any-again [] n d = refl
if_any-again (b ∷ bs) n d = refl

run_or-again : (run d : Option String) → run_or run (run_or run d) ≡ run_or run d
unfolding run_or
run_or-again none d = refl
run_or-again (some x) d = refl

module _ (r : Report) (rs : List Report) (h : All HasRun (r ∷ rs)) where
  boards_again :
      (later : List Report)
      → gather id_of newer (λ x. x.boards) [] (combine r rs ∷ later)
        ≡ gather id_of newer (λ x. x.boards) [] (r ∷ rs ++ later)
  unfolding combine
  boards_again later =
      gather_again id_of newer (λ x y e. sym ((str_eq_iff y.board_id x.board_id).0 e))
        (λ x. x.boards) (combine r rs) (r ∷ rs) later refl

  outcomes_again :
      (later : List Report)
      → gather name_of add_up (λ x. x.outcomes) [] (combine r rs ∷ later)
        ≡ gather name_of add_up (λ x. x.outcomes) [] (r ∷ rs ++ later)
  unfolding combine
  outcomes_again later =
      gather_again name_of add_up (λ x y e. refl) (λ x. x.outcomes) (combine r rs) (r ∷ rs) later
        refl

  failures_again :
      (later : List Report)
      → gather itself older (λ x. x.failures) [] (combine r rs ∷ later)
        ≡ gather itself older (λ x. x.failures) [] (r ∷ rs ++ later)
  unfolding combine
  failures_again later =
      gather_again itself older (λ x y e. refl) (λ x. x.failures) (combine r rs) (r ∷ rs) later refl

  run_again :
      (later : List Report)
      → selected_run none (combine r rs ∷ later) ≡ selected_run none (r ∷ rs ++ later)
  unfolding combine selected_run
  run_again later =
      rw
        (
          picked (sum_by selected (r ∷ rs)) (selected_run none (r ∷ rs)) (last_of r rs).run_id
              (selected_run-IsFound none (r ∷ rs) h),
          selected_run-append (pick none r) rs later,
        )
        refl

  sum_again :
      (f : Report → ℕ) (later : List Report)
      → f (combine r rs) ≡ sum_by f (r ∷ rs)
      → sum_by f (combine r rs ∷ later) ≡ sum_by f (r ∷ rs ++ later)
  sum_again f later e = omega (arith, e, sum_by-append f (r ∷ rs) later)

  changed_sum : changed (combine r rs) ≡ sum_by changed (r ∷ rs)
  unfolding combine or_else
  changed_sum = refl

  failed_sum : failed (combine r rs) ≡ sum_by failed (r ∷ rs)
  unfolding combine or_else
  failed_sum = refl

  selected_sum : selected (combine r rs) ≡ sum_by selected (r ∷ rs)
  unfolding combine
  selected_sum = refl

  scheduled_sum : (combine r rs).scheduled_posts ≡ sum_by (λ x. x.scheduled_posts) (r ∷ rs)
  unfolding combine
  scheduled_sum = refl

  again_more :
      (l : Report) (ls : List Report) → combine (combine r rs) (l ∷ ls) ≡ combine r (rs ++ l ∷ ls)
  unfolding combine last_of
  again_more l ls = λ i. record {
    outcomes = outcomes_again (l ∷ ls) i;
    boards = boards_again (l ∷ ls) i;
    failures = failures_again (l ∷ ls) i;
    run_id = run_or (run_again (l ∷ ls) i) (last i).run_id;
    selected_posts = sum_again selected (l ∷ ls) selected_sum i;
    scheduled_posts = sum_again (λ x. x.scheduled_posts) (l ∷ ls) scheduled_sum i;
    changed_posts = some (sum_again changed (l ∷ ls) changed_sum i);
    failed_posts = some (sum_again failed (l ∷ ls) failed_sum i);
    boards_ok = if_any (bs i) (count is_ok (bs i)) (last i).boards_ok;
    boards_failed = if_any (bs i) (length (bs i) - count is_ok (bs i)) (last i).boards_failed;
    status = (last i).status;
  }
    where
      last : last_of l ls ≡ last_of r (rs ++ l ∷ ls)
      last = sym (last_of-append r rs l ls)

      bs :
          gather id_of newer (λ x. x.boards) [] (combine r rs ∷ l ∷ ls)
          ≡ gather id_of newer (λ x. x.boards) [] (r ∷ rs ++ l ∷ ls)
      bs = boards_again (l ∷ ls)

  again_alone : combine (combine r rs) [] ≡ combine r rs
  unfolding combine last_of
  again_alone = λ i. record {
    outcomes = (rw (append-nil rs) at (outcomes_again [])) i;
    boards = bs i;
    failures = (rw (append-nil rs) at (failures_again [])) i;
    run_id = (ap (λ x. run_or x (run_or run last.run_id)) run_eq ∙ run_or-again run last.run_id) i;
    selected_posts = (rw (append-nil rs) at (sum_again selected [] selected_sum)) i;
    scheduled_posts =
        (rw (append-nil rs) at (sum_again (λ x. x.scheduled_posts) [] scheduled_sum)) i;
    changed_posts = some ((rw (append-nil rs) at (sum_again changed [] changed_sum)) i);
    failed_posts = some ((rw (append-nil rs) at (sum_again failed [] failed_sum)) i);
    boards_ok = counted (λ b. count is_ok b) last.boards_ok i;
    boards_failed = counted (λ b. length b - count is_ok b) last.boards_failed i;
    status = last.status;
  }
    where
      last : Report
      last = last_of r rs

      run : Option String
      run = selected_run none (r ∷ rs)

      all_boards : List BoardReport
      all_boards = gather id_of newer (λ x. x.boards) [] (r ∷ rs)

      run_eq : selected_run none (combine r rs ∷ []) ≡ run
      run_eq = rw (append-nil rs) at (run_again [])

      bs : gather id_of newer (λ x. x.boards) [] (combine r rs ∷ []) ≡ all_boards
      bs = rw (append-nil rs) at (boards_again [])

      counted :
          (f : List BoardReport → ℕ) (d : ℕ)
          → if_any
              (gather id_of newer (λ x. x.boards) [] (combine r rs ∷ []))
              (f (gather id_of newer (λ x. x.boards) [] (combine r rs ∷ [])))
              (if_any all_boards (f all_boards) d)
            ≡ if_any all_boards (f all_boards) d
      counted f d =
          ap (λ b. if_any b (f b) (if_any all_boards (f all_boards) d)) bs
          ∙ if_any-again all_boards (f all_boards) d

  combine-again : (later : List Report) → combine (combine r rs) later ≡ combine r (rs ++ later)
  combine-again [] = rw (append-nil rs) again_alone
  combine-again (l ∷ ls) = again_more l ls

-- Reports are combined together with later ones. If the first of them are combined already, and each of
-- those that selected posts has a run, the result is the same.
pub combined_collection_report-again :
    (rs : List Report) (c : Report) (later : List Report)
    → All HasRun rs
    → combined_collection_report rs ≡ ok c
    → combined_collection_report (c ∷ later) ≡ combined_collection_report (rs ++ later)
unfolding combined_collection_report
combined_collection_report-again [] c later h e = cc
combined_collection_report-again (r ∷ rs) c later h e =
    let same : combine r rs ≡ c = cc in rw (← same) (ap ok (combine-again r rs h later))
