-- ===== src/Store/Ops/Kept.antt =====
-- What every sequence of calls of the store keeps: the counts of a finished run, and an ended run.
use mathlib.Core.Path.{subst}
use re_dstm.Prelude.{
  ℕ, String, ◌≡◌, refl, sym, ap, ◌∙◌, ◌⊎◌, inl, inr, Bool, true, false, Option, none, some, List,
  [], ◌∷◌, ◌++◌, arith, str_eq, str_eq_iff, Bool-cases, count, find, find-append, find_passes,
  find-update_where, map_row, update_row, update_where,
}
use re_dstm.Store.Tables.{
  RunStatus, Run, Capture, Store, is_running, is_finished, run_at, status_of,
}
use re_dstm.Store.Runs.{
  is_stale_run, interrupt, finish, count_fetched, count_changed, count_unchanged, count_failed,
}
use re_dstm.Store.Ops.{
  StoreOp, store_step, store_steps, Change, quiet, captured, began, swept, ended, store_step-Change,
}

module _ {ℓ} {A : Type ℓ} (p : A → Bool) where
  find-append_one :
      (xs : List A) (y r : A) → find p (xs ++ y ∷ []) ≡ some r → (find p xs ≡ some r) ⊎ (y ≡ r)
  unfolding find
  find-append_one [] y r e = elim (Bool-cases (p y)) [
    | inl t ↦ let e' : some y ≡ some r = rw t at e in inr (cc)
    | inr n ↦ let e' : none ≡ some r = rw n at e in cc
  ]
  find-append_one (x ∷ xs) y r e = elim (Bool-cases (p x)) [
    | inl t ↦ rw t (inl (rw t at e))
    | inr n ↦ rw n (find-append_one xs y r (rw n at e))
  ]

  count-append_miss : (xs : List A) (y : A) → p y ≡ false → count p (xs ++ y ∷ []) ≡ count p xs
  count-append_miss [] y n = rw n
  count-append_miss (x ∷ xs) y n = ground (arith, count-append_miss xs y n)

map_row-some :
    (f : Run → Run) (o : Option Run) (r : Run)
    → map_row f o ≡ some r
    → (r' : Run) × (o ≡ some r') × (f r' ≡ r)
map_row-some f none r e = cc
map_row-some f (some x) r e = (x, refl, cc)

-- the run's counters are the counts of its captures of posts
pub record Agrees (captures : List Capture) (r : Run) : Type 0 where
  pub all_fetched : r.fetched ≡ count_fetched r.run_id captures
  pub all_changed : r.changed ≡ count_changed r.run_id captures
  pub all_unchanged : r.unchanged ≡ count_unchanged r.run_id captures
  pub all_failed : r.failures ≡ count_failed r.run_id captures

-- of each run that an id finds and `finish_run` has ended with another status than interrupted
abbrev pub IsCounted : Store → Type 0
IsCounted s =
    (id : String) (r : Run)
    → find (run_at id) s.runs ≡ some r
    → is_finished r.status ≡ true
    → Agrees s.captures r

-- A run that an id finds is the run of that id.
found_id :
    (id : String) (runs : List Run) (r : Run) → find (run_at id) runs ≡ some r → r.run_id ≡ id
found_id id runs r e = (str_eq_iff r.run_id id).0 (find_passes (run_at id) runs r e)

still_running :
    (id id' : String) (runs : List Run) (r : Run)
    → find (run_at id) runs ≡ some r
    → id' ≡ r.run_id
    → status_of (find (run_at id') runs) ≡ true
    → is_running r.status ≡ true
still_running id id' runs r e same running = rw e at (rw (same ∙ found_id id runs r e) at running)

other_run :
    (id id' : String) (runs : List Run) (r : Run)
    → find (run_at id) runs ≡ some r
    → is_running r.status ≡ false
    → status_of (find (run_at id') runs) ≡ true
    → str_eq id' r.run_id ≡ false
other_run id id' runs r e over running = elim (Bool-cases (str_eq id' r.run_id)) [
  | inr n ↦ n
  | inl y ↦ absurd (clash (still_running id id' runs r e ((str_eq_iff id' r.run_id).0 y) running))
]
  where
    clash : is_running r.status ≡ true → ⊥
    clash t = cc

Agrees-captured :
    (cs : List Capture) (c : Capture) (r : Run)
    → str_eq c.run_id r.run_id ≡ false
    → Agrees cs r
    → Agrees (cs ++ c ∷ []) r
Agrees-captured cs c r other a = record {
  all_fetched = a.all_fetched ∙ sym (count-append_miss _ cs c (rw other));
  all_changed = a.all_changed ∙ sym (count-append_miss _ cs c (rw other));
  all_unchanged = a.all_unchanged ∙ sym (count-append_miss _ cs c (rw other));
  all_failed = a.all_failed ∙ sym (count-append_miss _ cs c (rw other));
}

finished_over : (s : RunStatus) → is_finished s ≡ true → is_running s ≡ false
finished_over s h = ground arith

-- The row that an id finds after an update of the runs, before it.
found_before :
    (p : Run → Bool) (f : Run → Run) (id : String) (runs : List Run) (r : Run)
    → ((x : Run) → run_at id (update_row p f x) ≡ run_at id x)
    → find (run_at id) (update_where p f runs) ≡ some r
    → (x : Run) × (find (run_at id) runs ≡ some x) × (update_row p f x ≡ r)
found_before p f id runs r keep e =
    map_row-some (update_row p f) (find (run_at id) runs) r
      (sym (find-update_where (run_at id) p f keep runs) ∙ e)

interrupt_keeps :
    (at_time : ℕ) (id : String) (x : Run)
    → run_at id (update_row is_stale_run (interrupt at_time) x) ≡ run_at id x
interrupt_keeps at_time id x = elim (Bool-cases (is_stale_run x)) [ inl y ↦ rw y | inr n ↦ rw n ]

-- A run that is finished after the sweep was not swept.
not_swept :
    (at_time : ℕ) (x r : Run)
    → update_row is_stale_run (interrupt at_time) x ≡ r
    → is_finished r.status ≡ true
    → x ≡ r
not_swept at_time x r e over = elim (Bool-cases (is_stale_run x)) [
  | inr n ↦ rw n at e
  | inl y ↦ absurd (clash (rw y at e))
]
  where
    clash : interrupt at_time x ≡ r → ⊥
    clash same = cc (rw (← same) at over)

module _ (id' : String) (cs : List Capture) (status : RunStatus) (at_time discovered : ℕ)
    (summary : String) where
  abbrev finished : Run → Run
  finished = finish id' cs status at_time discovered summary

  finish_keeps :
      (id : String) (x : Run) → run_at id (update_row (run_at id') finished x) ≡ run_at id x
  finish_keeps id x = elim (Bool-cases (run_at id' x)) [ inl y ↦ rw y | inr n ↦ rw n ]

  finish-Agrees : (x : Run) → run_at id' x ≡ true → Agrees cs (finished x)
  finish-Agrees x y =
      let same : x.run_id ≡ id' = (str_eq_iff x.run_id id').0 y in
      record {
        all_fetched = ap (λ i. count_fetched i cs) (sym same);
        all_changed = ap (λ i. count_changed i cs) (sym same);
        all_unchanged = ap (λ i. count_unchanged i cs) (sym same);
        all_failed = ap (λ i. count_failed i cs) (sym same);
      }

  ended-Agrees :
      (x r : Run) → update_row (run_at id') finished x ≡ r → (x ≡ r → Agrees cs r) → Agrees cs r
  ended-Agrees x r e same = elim (Bool-cases (run_at id' x)) [
    | inr n ↦ same (rw n at e)
    | inl y ↦ subst (Agrees cs) (rw y at e) (finish-Agrees x y)
  ]

Change-IsCounted : (s t : Store) → Change s t → IsCounted s → IsCounted t
Change-IsCounted s t (quiet runs captures) h id r e over = rw captures (h id r (rw runs at e) over)
Change-IsCounted s t (captured c running runs captures) h id r e over =
    let e' = rw runs at e in
    rw captures (
      Agrees-captured s.captures c r
        (other_run id c.run_id s.runs r e' (finished_over r.status over) running) (h id r e' over))
Change-IsCounted s t (began new running runs captures) h id r e over =
    elim (find-append_one (run_at id) s.runs new r (rw runs at e)) [
      | inl e' ↦ rw captures (h id r e' over)
      | inr same ↦ absurd (clash same)
    ]
  where
    clash : new ≡ r → ⊥
    clash same = ground (arith, same)
Change-IsCounted s t (swept at_time runs captures) h id r e over =
    let (x, found, updated) =
      found_before is_stale_run (interrupt at_time) id s.runs r (interrupt_keeps at_time id)
        (rw runs at e) in
    rw captures (h id r (found ∙ ap some (not_swept at_time x r updated over)) over)
Change-IsCounted s t (ended id' status at_time discovered summary running runs captures) h id r e
      over =
    let (x, found, updated) =
      found_before (run_at id') (finished id' s.captures status at_time discovered summary) id
        s.runs r (finish_keeps id' s.captures status at_time discovered summary id)
        (rw runs at e) in
    rw captures (
      ended-Agrees id' s.captures status at_time discovered summary x r updated
        (λ same. h id r (found ∙ ap some same) over))

-- From a store in which each run that `finish_run` has ended has the counts of its captures, any
-- sequence of calls leaves one in which each such run has. So no capture is ever added to a run after
-- it was counted.
pub store_steps-IsCounted :
    (s : Store) (os : List StoreOp) → IsCounted s → IsCounted (store_steps s os)
unfolding store_steps
store_steps-IsCounted s [] h = h
store_steps-IsCounted s (o ∷ os) h =
    store_steps-IsCounted (store_step s o) os
      (Change-IsCounted s (store_step s o) (store_step-Change s o) h)

Change-over :
    (s t : Store) (id : String) (r : Run)
    → Change s t
    → is_running r.status ≡ false
    → find (run_at id) s.runs ≡ some r
    → find (run_at id) t.runs ≡ some r
Change-over s t id r (quiet runs captures) over e = rw runs e
Change-over s t id r (captured c running runs captures) over e = rw runs e
Change-over s t id r (began new running runs captures) over e =
    rw runs (find-append (run_at id) s.runs (new ∷ []) r e)
Change-over s t id r (swept at_time runs captures) over e = rw runs (
    find-update_where (run_at id) is_stale_run (interrupt at_time) (interrupt_keeps at_time id)
      s.runs
    ∙ ap (map_row (update_row is_stale_run (interrupt at_time))) e
    ∙ rw over)
Change-over s t id r (ended id' status at_time discovered summary running runs captures) over e =
    rw runs (
      find-update_where (run_at id) (run_at id')
        (finished id' s.captures status at_time discovered summary)
        (finish_keeps id' s.captures status at_time discovered summary id) s.runs
      ∙ ap
          (map_row
            (update_row (run_at id') (finished id' s.captures status at_time discovered summary)))
          e
      ∙ rw (missed id' r (other_run id id' s.runs r e over running)))
  where
    missed : (id' : String) (r : Run) → str_eq id' r.run_id ≡ false → run_at id' r ≡ false
    missed id' r n = ground (arith, str_eq_iff id' r.run_id, str_eq_iff r.run_id id')

-- A run that is no longer running is, under any calls that follow, the same row for good.
pub store_steps-keep_run :
    (s : Store) (os : List StoreOp) (id : String) (r : Run)
    → is_running r.status ≡ false
    → find (run_at id) s.runs ≡ some r
    → find (run_at id) (store_steps s os).runs ≡ some r
unfolding store_steps
store_steps-keep_run s [] id r over e = e
store_steps-keep_run s (o ∷ os) id r over e =
    store_steps-keep_run (store_step s o) os id r over
      (Change-over s (store_step s o) id r (store_step-Change s o) over e)
