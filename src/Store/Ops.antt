-- ===== src/Store/Ops.antt =====
-- All writes of the store as one type of operations, and what each may do to the runs and captures.
pub mod Kept
use re_dstm.Prelude.{
  ℕ, arith, String, ◌≡◌, refl, Bool, true, Option, none, some, List, [], ◌∷◌, ◌++◌, Result, ok, err,
  ◌>>=◌, raise_if, find, update_where,
}
use re_dstm.Prelude.Ensures.{Ensures, Ensures-ok, Ensures-err, Ensures-raise_if, Ensures-bind}
use re_dstm.Frontier.Table.{State, Archive, Post}
use re_dstm.Frontier.Clock.{DateTime}
use re_dstm.Frontier.Lease.{Lease}
use re_dstm.Store.Tables.{
  RunStatus, Run, Capture, Outcome, Store, is_running, run_at, status_of, stamp,
  require_running_run, add_capture,
}
use re_dstm.Store.Runs.{
  start_run, interrupt_stale_crawl_runs, finish_run, is_stale_run, interrupt, finish,
}
use re_dstm.Store.Captures.{
  Evidence, record_listing, record_outcome, record_unmodified_post, confirm_post,
  checkpoint_inventory_page,
}
use re_dstm.Store.Discovered.{Discovered, store_discovered_post}
use re_dstm.Store.Bodies.{Tools, NewPost, Fetched, keep_body}
use re_dstm.Store.Posts.{put_body, store_or_keep, store_post}

pub data StoreOp : Type 0 where
  begin : (kind hex : String) (now : DateTime) → StoreOp
  interrupt_stale : (now : DateTime) → StoreOp
  end_run :
      (id : String) (status : RunStatus) (discovered : ℕ) (summary : String) (now : DateTime)
      → StoreOp
  see : (item : Discovered) (now : DateTime) → StoreOp
  capture_listing :
      (run_id url : String) (now : DateTime) (http_status : ℕ) (evidence : Evidence)
      (code : Option String)
      → StoreOp
  capture_outcome :
      (run_id url : String) (outcome : Outcome) (now : DateTime) (http_status : Option ℕ)
      (ref : Option (String × ℕ)) (code : Option String) (evidence : Evidence)
      (lease : Option Lease) (state : State) (retry_after_at : Option DateTime)
      → StoreOp
  confirm :
      (run_id url : String) (now : DateTime) (http_status : ℕ) (lease : Option Lease) → StoreOp
  put : (tools : Tools) (n : NewPost) (f : Fetched) → StoreOp
  checkpoint_page : (board_id : String) (next_page now : ℕ) → StoreOp

abbrev kept : {A : Type 0} → Store → Result (A × Store) → Store
kept s (ok p) = p.1
kept s (err e) = s

abbrev kept_store : Store → Result Store → Store
kept_store s (ok t) = t
kept_store s (err e) = s

-- A call that raises rolls its transaction back.
unfoldable pub store_step : Store → StoreOp → Store
store_step s (begin kind hex now) = kept s (start_run s kind hex now)
store_step s (interrupt_stale now) = kept s (interrupt_stale_crawl_runs s now)
store_step s (end_run id status discovered summary now) =
    kept_store s (finish_run s id status discovered summary now)
store_step s (see item now) = kept s (store_discovered_post s item now)
store_step s (capture_listing run_id url now http_status evidence code) =
    kept s (record_listing s run_id url now http_status evidence code)
store_step s
      (capture_outcome run_id url outcome now http_status ref code evidence lease state retry) =
    kept s (record_outcome s run_id url outcome now http_status ref code evidence lease state retry)
store_step s (confirm run_id url now http_status lease) =
    kept s (record_unmodified_post s run_id url now http_status lease)
store_step s (put tools n f) = kept s (store_post tools s n f)
store_step s (checkpoint_page board_id next_page now) =
    kept_store s (checkpoint_inventory_page s board_id next_page now)

unfoldable pub store_steps : Store → List StoreOp → Store
store_steps s [] = s
store_steps s (o ∷ os) = store_steps (store_step s o) os

-- What a call may do to the runs and captures: nothing, a capture of a running run, a new run, the
-- interruption of stale runs, or the end of a running run with the counts of its captures.
pub data Change (s t : Store) : Type 0 where
  quiet : t.runs ≡ s.runs → t.captures ≡ s.captures → Change s t
  captured :
      (c : Capture)
      → status_of (find (run_at c.run_id) s.runs) ≡ true
      → t.runs ≡ s.runs
      → t.captures ≡ s.captures ++ c ∷ []
      → Change s t
  began :
      (r : Run)
      → is_running r.status ≡ true
      → t.runs ≡ s.runs ++ r ∷ []
      → t.captures ≡ s.captures
      → Change s t
  swept :
      (at : ℕ)
      → t.runs ≡ update_where is_stale_run (interrupt at) s.runs
      → t.captures ≡ s.captures
      → Change s t
  ended :
      (id : String) (status : RunStatus) (at discovered : ℕ) (summary : String)
      → status_of (find (run_at id) s.runs) ≡ true
      → t.runs ≡ update_where (run_at id) (finish id s.captures status at discovered summary) s.runs
      → t.captures ≡ s.captures
      → Change s t

abbrev After : {A : Type 0} → Store → A × Store → Type 0
After s p = Change s p.1

required :
    (runs : List Run) (id : String) (u : Unit {0})
    → require_running_run runs id ≡ ok u
    → status_of (find (run_at id) runs) ≡ true
unfolding require_running_run
required runs id u e = ground arith

module _ (s : Store) where
  start_run-Change :
      (kind hex : String) (now : DateTime) → Ensures (After s) (start_run s kind hex now)
  unfolding start_run
  start_run-Change kind hex now = Ensures-bind _ _ λ at _.
      Ensures-raise_if _ _ _ λ _. Ensures-raise_if _ _ _ λ _. Ensures-ok _ (began _ refl refl refl)

  interrupt_stale_crawl_runs-Change :
      (now : DateTime) → Ensures (After s) (interrupt_stale_crawl_runs s now)
  unfolding interrupt_stale_crawl_runs
  interrupt_stale_crawl_runs-Change now = Ensures-bind _ _ λ at _. Ensures-ok _ (swept at refl refl)

  finish_run-Change :
      (id : String) (status : RunStatus) (discovered : ℕ) (summary : String) (now : DateTime)
      → Ensures (Change s) (finish_run s id status discovered summary now)
  unfolding finish_run
  finish_run-Change id status discovered summary now = Ensures-bind _ _ λ at _.
      Ensures-bind _ _ λ u runs. Ensures-raise_if _ _ _ λ _.
        Ensures-ok _ (ended id status at discovered summary (required s.runs id u runs) refl refl)

  store_discovered_post-Change :
      (item : Discovered) (now : DateTime) → Ensures (After s) (store_discovered_post s item now)
  unfolding store_discovered_post
  store_discovered_post-Change item now = Ensures-bind _ _ λ at _.
      Ensures-raise_if _ _ _
        λ _. Ensures-raise_if _ _ _ λ _. Ensures-raise_if _ _ _ λ _. Ensures-ok _ (quiet refl refl)

  record_listing-Change :
      (run_id url : String) (now : DateTime) (http_status : ℕ) (evidence : Evidence)
      (code : Option String)
      → Ensures (After s) (record_listing s run_id url now http_status evidence code)
  unfolding record_listing add_capture
  record_listing-Change run_id url now http_status evidence code = Ensures-bind _ _ λ at _.
      Ensures-bind _ _ λ u runs. Ensures-ok _ (captured _ (required s.runs run_id u runs) refl refl)

  record_outcome-Change :
      (run_id url : String) (outcome : Outcome) (now : DateTime) (http_status : Option ℕ)
      (ref : Option (String × ℕ)) (code : Option String) (evidence : Evidence)
      (lease : Option Lease) (state : State) (retry : Option DateTime)
      → Ensures
          (After s)
          (record_outcome s run_id url outcome now http_status ref code evidence lease state retry)
  unfolding record_outcome add_capture
  record_outcome-Change run_id url outcome now http_status ref code evidence lease state retry =
      Ensures-bind _ _ λ at _. Ensures-raise_if _ _ _ λ _. Ensures-bind _ _ λ u runs.
        Ensures-bind _ _ λ b _. Ensures-ok _ (captured _ (required s.runs run_id u runs) refl refl)

  confirm_post-Change :
      (run_id url : String) (at http_status : ℕ) (lease : Option Lease) (p : Option Post)
      → status_of (find (run_at run_id) s.runs) ≡ true
      → Ensures (After s) (confirm_post s run_id url at http_status lease p)
  unfolding confirm_post add_capture
  confirm_post-Change run_id url at http_status lease none runs = Ensures-err _
  confirm_post-Change run_id url at http_status lease (some p) runs =
      Ensures-bind _ _ λ b _. Ensures-ok _ (captured _ runs refl refl)

  record_unmodified_post-Change :
      (run_id url : String) (now : DateTime) (http_status : ℕ) (lease : Option Lease)
      → Ensures (After s) (record_unmodified_post s run_id url now http_status lease)
  unfolding record_unmodified_post
  record_unmodified_post-Change run_id url now http_status lease = Ensures-raise_if _ _ _ λ _.
      Ensures-bind _ _ λ at _. Ensures-bind _ _ λ u runs.
        confirm_post-Change run_id url at http_status lease _ (required s.runs run_id u runs)

  keep_body-Change :
      (n : NewPost) (f : Fetched) (at : ℕ) (p : Post) (lease : Lease) (version : ℕ)
      → status_of (find (run_at f.run_id) s.runs) ≡ true
      → Ensures (After s) (keep_body s n f at p lease version)
  unfolding keep_body add_capture
  keep_body-Change n f at p lease version runs =
      Ensures-bind _ _ λ a _. Ensures-ok _ (captured _ runs refl refl)

  put_body-Change :
      (tools : Tools) (n : NewPost) (f : Fetched) (at : ℕ) (existing : Option Post)
      → status_of (find (run_at f.run_id) s.runs) ≡ true
      → Ensures (After s) (put_body tools s n f at existing)
  unfolding put_body add_capture
  put_body-Change tools n f at existing runs = Ensures-raise_if _ _ _ λ _.
      Ensures-raise_if _ _ _ λ _. Ensures-raise_if _ _ _ λ _.
        Ensures-bind _ _
          λ comments _. Ensures-bind _ _ λ b _. Ensures-ok _ (captured _ runs refl refl)

  store_or_keep-Change :
      (tools : Tools) (n : NewPost) (f : Fetched) (at : ℕ) (existing : Option Post)
      (short : Option (Post × Lease × ℕ))
      → status_of (find (run_at f.run_id) s.runs) ≡ true
      → Ensures (After s) (store_or_keep tools s n f at existing short)
  unfolding store_or_keep
  store_or_keep-Change tools n f at existing (some (p, lease, version)) runs =
      keep_body-Change n f at p lease version runs
  store_or_keep-Change tools n f at existing none runs = put_body-Change tools n f at existing runs

  store_post-Change :
      (tools : Tools) (n : NewPost) (f : Fetched) → Ensures (After s) (store_post tools s n f)
  unfolding store_post
  store_post-Change tools n f = Ensures-bind _ _ λ at _.
      Ensures-bind _ _
        λ u runs. store_or_keep-Change tools n f at _ _ (required s.runs f.run_id u runs)

  checkpoint_inventory_page-Change :
      (board_id : String) (next_page now : ℕ)
      → Ensures (Change s) (checkpoint_inventory_page s board_id next_page now)
  unfolding checkpoint_inventory_page
  checkpoint_inventory_page-Change board_id next_page now =
      Ensures-raise_if _ _ _ λ _. Ensures-ok _ (quiet refl refl)

  kept-Change : {A : Type 0} (r : Result (A × Store)) → Ensures (After s) r → Change s (kept s r)
  kept-Change (ok p) h = h.at p refl
  kept-Change (err e) h = quiet refl refl

  kept_store-Change : (r : Result Store) → Ensures (Change s) r → Change s (kept_store s r)
  kept_store-Change (ok t) h = h.at t refl
  kept_store-Change (err e) h = quiet refl refl

  -- Every call of the store, whatever its arguments and whether or not it raises, changes the runs and
  -- captures only in one of the ways of `Change`.
  pub store_step-Change : (o : StoreOp) → Change s (store_step s o)
  unfolding store_step
  store_step-Change (begin kind hex now) = kept-Change _ (start_run-Change kind hex now)
  store_step-Change (interrupt_stale now) = kept-Change _ (interrupt_stale_crawl_runs-Change now)
  store_step-Change (end_run id status discovered summary now) =
      kept_store-Change _ (finish_run-Change id status discovered summary now)
  store_step-Change (see item now) = kept-Change _ (store_discovered_post-Change item now)
  store_step-Change (capture_listing run_id url now http_status evidence code) =
      kept-Change _ (record_listing-Change run_id url now http_status evidence code)
  store_step-Change
        (capture_outcome run_id url outcome now http_status ref code evidence lease state retry) =
      kept-Change _ (
        record_outcome-Change run_id url outcome now http_status ref code evidence lease state
          retry)
  store_step-Change (confirm run_id url now http_status lease) =
      kept-Change _ (record_unmodified_post-Change run_id url now http_status lease)
  store_step-Change (put tools n f) = kept-Change _ (store_post-Change tools n f)
  store_step-Change (checkpoint_page board_id next_page now) =
      kept_store-Change _ (checkpoint_inventory_page-Change board_id next_page now)
