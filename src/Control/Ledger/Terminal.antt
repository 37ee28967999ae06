-- ===== src/Control/Ledger/Terminal.antt =====
-- What a command's terminal result and its report keep, and that a command begins once.
use re_dstm.Prelude.{
  count-false, update_where-none, ℕ, String, ◌≡◌, refl, ap, ◌∙◌, inl, inr, Bool, true, false,
  Option, some, List, [], ◌∷◌, arith, Result, ok, err, Bool-cases, any, count, find-append,
  find-update_where, map_row, update_row, update_where, count-update_where,
}
use re_dstm.Prelude.Ensures.{Ensures, Ensures-ok, Ensures-raise_if, Ensures-bind}
use re_dstm.Control.Json.{Json, Fields}
use re_dstm.Control.Ledger.{
  Command, CommandState, ReportState, delivered, permanently_rejected, has_id, is_terminal,
  is_pending, command, begins, begin_row, reports, report_row, insert_command, new_command,
  record_claim, begin_command, update_progress, touch_command, finish_command, mark, mark_reported,
  mark_report_rejected,
}

-- the calls that write to the ledger
pub data LedgerOp : Type 0 where
  claim : (id action args_json : String) (now : ℕ) → LedgerOp
  begin : (id : String) (run_id : Option String) (now : ℕ) → LedgerOp
  progress : (id : String) (counters : Fields) (progress_json : String) (now : ℕ) → LedgerOp
  touch : (id : String) (now : ℕ) → LedgerOp
  finish :
      (id : String) (state : CommandState) (code : Option String) (payload : Option Json) (now : ℕ)
      → LedgerOp
  report : (id : String) (now : ℕ) → LedgerOp
  reject : (id : String) (now : ℕ) → LedgerOp

abbrev kept : {A : Type 0} → List Command → Result (A × List Command) → List Command
kept ledger (ok p) = p.1
kept ledger (err e) = ledger

abbrev kept_list : List Command → Result (List Command) → List Command
kept_list ledger (ok l) = l
kept_list ledger (err e) = ledger

module _ (uuid : String → Option String) (lower : String → String)
    (dumps : Option String → Option Json → String) where
  unfoldable pub ledger_step : List Command → LedgerOp → List Command
  ledger_step ledger (claim id action args now) =
      kept ledger (record_claim uuid lower ledger id action args now)
  ledger_step ledger (begin id run_id now) = (begin_command ledger id run_id now).1
  ledger_step ledger (progress id counters json now) =
      kept ledger (update_progress ledger id counters json now)
  ledger_step ledger (touch id now) = (touch_command ledger id now).1
  ledger_step ledger (finish id state code payload now) =
      kept ledger (finish_command lower dumps ledger id state code payload now)
  ledger_step ledger (report id now) = kept_list ledger (mark_reported ledger id now)
  ledger_step ledger (reject id now) = kept_list ledger (mark_report_rejected ledger id now)

  unfoldable pub ledger_steps : List Command → List LedgerOp → List Command
  unfolding ledger_step
  ledger_steps ledger [] = ledger
  ledger_steps ledger (o ∷ os) = ledger_steps (ledger_step ledger o) os

-- What `d` keeps of a command `c` that has ended.
pub record SameResult (c d : Command) : Type 0 where
  pub same_action : d.action ≡ c.action
  pub same_end : d.state ≡ c.state
  pub same_json : d.result_json ≡ c.result_json
  pub same_report : is_pending c.report_state ≡ false → d.report_state ≡ c.report_state
  pub same_time : is_pending c.report_state ≡ false → d.reported_at ≡ c.reported_at

pub record Ended (id : String) (c : Command) (ledger : List Command) : Type 0 where
  pub row : Command
  pub found : command ledger id ≡ some row
  pub same : SameResult c row

module _ (id : String) (c : Command) (over : is_terminal c.state ≡ true) where
  abbrev Kept : List Command → Type 0
  Kept = Ended id c

  -- An update of rows that keeps ids and what an ended command keeps.
  pub record Spares (p : Command → Bool) (f : Command → Command) : Type 0 where
    pub keeps_id : (d : Command) → (f d).command_id ≡ d.command_id
    pub keeps : (d : Command) → SameResult c d → SameResult c (update_row p f d)

  same_id :
      (p : Command → Bool) (f : Command → Command)
      → ((d : Command) → (f d).command_id ≡ d.command_id)
      → (d : Command) → has_id id (update_row p f d) ≡ has_id id d
  same_id p f k d = elim (Bool-cases (p d)) [ inl y ↦ rw y (rw (k d)) | inr n ↦ rw n ]

  update_where-Ended :
      {p : Command → Bool} {f : Command → Command} (ledger : List Command)
      → Spares p f
      → Kept ledger
      → Kept (update_where p f ledger)
  unfolding command
  update_where-Ended {p} {f} ledger s h = record {
    row = update_row p f h.row;
    found =
        find-update_where (has_id id) p f (same_id p f s.keeps_id) ledger
        ∙ ap (map_row (update_row p f)) h.found;
    same = s.keeps h.row h.same;
  }

  -- what is kept where an update does not select the row
  misses :
      {p : Command → Bool} {f : Command → Command}
      → ((d : Command) → (f d).command_id ≡ d.command_id)
      → ((d : Command) → is_terminal d.state ≡ true → p d ≡ false)
      → Spares p f
  misses {p} {f} k m = record {
    keeps_id = k;
    keeps = λ d s. rw (m d (ap is_terminal s.same_end ∙ over)) s;
  }

  report-Spares :
      (id' : String) (r : ReportState) (now : ℕ) → Spares (reports id') (report_row r now)
  report-Spares id' r now = record {
    keeps_id = λ d. refl;
    keeps = λ d s. record {
      same_action = ground (arith, s.same_action);
      same_end = ground (arith, s.same_end);
      same_json = ground (arith, s.same_json);
      same_report = λ n. ground (arith, s.same_report n);
      same_time = λ n. ground (arith, s.same_report n, s.same_time n);
    };
  }

  insert-Ended :
      (ledger : List Command) (n : Command) → Kept ledger → Kept (insert_command ledger n)
  unfolding command
  insert-Ended ledger n h = elim (Bool-cases (any (has_id n.command_id) ledger)) [
    | inl y ↦ rw y h
    | inr m ↦ rw m (record {
      row = h.row;
      found = find-append (has_id id) ledger (n ∷ []) h.row h.found;
      same = h.same;
    })
  ]

  abbrev KeptPair : {A : Type 0} → A × List Command → Type 0
  KeptPair p = Ended id c p.1

  module _ (ledger : List Command) (h : Kept ledger) where
    kept-Ended :
        {A : Type 0} (r : Result (A × List Command)) → Ensures KeptPair r → Kept (kept ledger r)
    kept-Ended (ok p) e = e.at p refl
    kept-Ended (err x) e = h

    kept_list-Ended : (r : Result (List Command)) → Ensures Kept r → Kept (kept_list ledger r)
    kept_list-Ended (ok l) e = e.at l refl
    kept_list-Ended (err x) e = h

    mark-Ended :
        (r : ReportState) (message id' : String) (now : ℕ)
        → Ensures Kept (mark r message ledger id' now)
    unfolding mark
    mark-Ended r message id' now =
        Ensures-raise_if _ _ _
          λ _. Ensures-ok _ (update_where-Ended ledger (report-Spares id' r now) h)

    record_claim-Ended :
        (uuid : String → Option String) (lower : String → String) (id' action args : String)
        (now : ℕ)
        → Ensures KeptPair (record_claim uuid lower ledger id' action args now)
    unfolding record_claim
    record_claim-Ended uuid lower id' action args now = Ensures-bind _ _ λ _ _.
        Ensures-raise_if _ _ _ λ _.
          Ensures-bind _ _
            λ d _. Ensures-ok _ (insert-Ended ledger (new_command id' action now args) h)

    update_progress-Ended :
        (id' : String) (counters : Fields) (json : String) (now : ℕ)
        → Ensures KeptPair (update_progress ledger id' counters json now)
    unfolding update_progress
    update_progress-Ended id' counters json now = Ensures-raise_if _ _ _ λ _.
        Ensures-ok _ (update_where-Ended ledger (misses (λ d. refl) (λ d t. ground (arith, t))) h)

    finish_command-Ended :
        (lower : String → String) (dumps : Option String → Option Json → String) (id' : String)
        (state : CommandState) (code : Option String) (payload : Option Json) (now : ℕ)
        → Ensures KeptPair (finish_command lower dumps ledger id' state code payload now)
    unfolding finish_command
    finish_command-Ended lower dumps id' state code payload now = Ensures-raise_if _ _ _ λ _.
        Ensures-raise_if _ _ _ λ _. Ensures-raise_if _ _ _ λ _. Ensures-raise_if _ _ _ λ _.
          Ensures-bind _ _ λ d _.
            Ensures-ok _
              (update_where-Ended ledger (misses (λ d. refl) (λ d t. ground (arith, t))) h)

    begin_command-Ended :
        (id' : String) (run_id : Option String) (now : ℕ)
        → Kept (begin_command ledger id' run_id now).1
    unfolding begin_command
    begin_command-Ended id' run_id now =
        update_where-Ended ledger (misses (λ d. refl) (λ d t. ground (arith, t))) h

    touch_command-Ended : (id' : String) (now : ℕ) → Kept (touch_command ledger id' now).1
    unfolding touch_command
    touch_command-Ended id' now =
        update_where-Ended ledger (misses (λ d. refl) (λ d t. ground (arith, t))) h

  module _ (uuid : String → Option String) (lower : String → String)
      (dumps : Option String → Option Json → String) where
    ledger_step-Ended :
        (o : LedgerOp) (ledger : List Command)
        → Kept ledger
        → Kept (ledger_step uuid lower dumps ledger o)
    unfolding ledger_step mark_reported mark_report_rejected
    ledger_step-Ended (claim i action args now) l h =
        kept-Ended l h _ (record_claim-Ended l h uuid lower i action args now)
    ledger_step-Ended (begin i run_id now) l h = begin_command-Ended l h i run_id now
    ledger_step-Ended (progress i counters json now) l h =
        kept-Ended l h _ (update_progress-Ended l h i counters json now)
    ledger_step-Ended (touch i now) l h = touch_command-Ended l h i now
    ledger_step-Ended (finish i state code payload now) l h =
        kept-Ended l h _ (finish_command-Ended l h lower dumps i state code payload now)
    ledger_step-Ended (report i now) l h = kept_list-Ended l h _ (mark-Ended l h delivered _ i now)
    ledger_step-Ended (reject i now) l h =
        kept_list-Ended l h _ (mark-Ended l h permanently_rejected _ i now)

    ledger_steps-Ended :
        (os : List LedgerOp) (ledger : List Command)
        → Kept ledger
        → Kept (ledger_steps uuid lower dumps ledger os)
    unfolding ledger_steps
    ledger_steps-Ended [] l h = h
    ledger_steps-Ended (o ∷ os) l h =
        ledger_steps-Ended os (ledger_step uuid lower dumps l o) (ledger_step-Ended o l h)

-- A command that has ended in succeeded, partial or failed keeps its action, state and result under
-- every later sequence of ledger calls; once its report is no longer pending, its report state and
-- report time stay too.
pub Ended-for_good :
    (uuid : String → Option String) (lower : String → String)
    (dumps : Option String → Option Json → String) (os : List LedgerOp) (ledger : List Command)
    (id : String) (c : Command)
    → command ledger id ≡ some c
    → is_terminal c.state ≡ true
    → Ended id c (ledger_steps uuid lower dumps ledger os)
Ended-for_good uuid lower dumps os ledger id c found over =
    ledger_steps-Ended id c over uuid lower dumps os ledger (record {
      row = c;
      found = found;
      same = record {
        same_action = refl;
        same_end = refl;
        same_json = refl;
        same_report = λ _. refl;
        same_time = λ _. refl;
      };
    })

none_begins :
    (id : String) (run_id : Option String) (now : ℕ) (ledger : List Command)
    → count (begins id) (update_where (begins id) (begin_row run_id now) ledger) ≡ 0
none_begins id run_id now ledger =
    count-update_where (begins id) (λ _. false) (begins id) (begin_row run_id now)
      (λ c. ground arith) ledger
    ∙ zero_count ledger
  where
    zero_count : (l : List Command) → count (λ _. false) l ≡ 0
    zero_count l = count-false l

-- A command begins at most once: after a call of `begin_command` for it, whatever that answered,
-- another call answers false and leaves the ledger as it is.
pub begin_command-twice :
    (ledger : List Command) (id : String) (run_id run_id' : Option String) (now now' : ℕ)
    → begin_command (begin_command ledger id run_id now).1 id run_id' now'
      ≡ (false, (begin_command ledger id run_id now).1)
unfolding begin_command
begin_command-twice ledger id run_id run_id' now now' =
    rw (none_begins id run_id now ledger)
      (ap (λ l. (false, l)) (update_where-none _ _ _ (none_begins id run_id now ledger)))
