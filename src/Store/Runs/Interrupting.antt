-- ===== src/Store/Runs/Interrupting.antt =====
-- What `interrupt_stale_crawl_runs` of crawler/store.py leaves of the runs.
use re_dstm.Prelude.{
  ℕ, String, ◌≡◌, refl, Bool, true, false, ◌&&◌, ◌||◌, some, List, [], ◌∷◌, arith, ok, ◌>>=◌,
  str_eq, count, update_where,
}
use re_dstm.Frontier.Clock.{DateTime}
use re_dstm.Store.Tables.{running, interrupted, RunStatus, Run, Store, stamp}
use re_dstm.Store.Runs.{is_stale_run, interrupt, interrupt_stale_crawl_runs}

abbrev is_crawl : String → Bool
is_crawl kind = str_eq kind "inventory" || str_eq kind "sync" || str_eq kind "retry"

abbrev goes_on : RunStatus → Bool
goes_on running = true
goes_on _ = false

-- a crawl that a process left behind
abbrev pub is_abandoned : Run → Bool
is_abandoned r = is_crawl r.kind && goes_on r.status

-- The run `r'` is the run `r` interrupted at `t`, with the counters that it had.
pub record IsInterrupted (t : ℕ) (r r' : Run) : Type 0 where
  pub status_is : r'.status ≡ interrupted
  pub finished_is : r'.finished_at ≡ some t
  pub summary_is : r'.summary_json ≡ "{\"error\":\"process_interrupted\"}"
  pub same_id : r'.run_id ≡ r.run_id
  pub same_kind : r'.kind ≡ r.kind
  pub same_start : r'.started_at ≡ r.started_at
  pub same_discovered : r'.discovered ≡ r.discovered
  pub same_fetched : r'.fetched ≡ r.fetched
  pub same_changed : r'.changed ≡ r.changed
  pub same_unchanged : r'.unchanged ≡ r.unchanged
  pub same_failures : r'.failures ≡ r.failures

-- row by row: an abandoned run is interrupted, every other is as it was
abbrev pub AreSwept : ℕ → List Run → List Run → Type 0
AreSwept t [] [] = Unit {0}
AreSwept t (r ∷ rs) (r' ∷ rs') =
    (is_abandoned r ≡ true → IsInterrupted t r r')
    × (is_abandoned r ≡ false → r' ≡ r)
    × AreSwept t rs rs'
AreSwept t [] (r' ∷ rs') = ⊥
AreSwept t (r ∷ rs) [] = ⊥

abandoned-eq : (r : Run) → is_stale_run r ≡ is_abandoned r
abandoned-eq r = ground arith

swept : (t : ℕ) (rs : List Run) → AreSwept t rs (update_where is_stale_run (interrupt t) rs)
unfolding update_where
swept t [] = tt
swept t (r ∷ rs) = (
  λ y.
      rw (abandoned-eq r, y)
        (record {
          status_is = refl;
          finished_is = refl;
          summary_is = refl;
          same_id = refl;
          same_kind = refl;
          same_start = refl;
          same_discovered = refl;
          same_fetched = refl;
          same_changed = refl;
          same_unchanged = refl;
          same_failures = refl;
        }),
  λ n. rw (abandoned-eq r, n) refl,
  swept t rs,
)

count-is_stale_run : (rs : List Run) → count is_stale_run rs ≡ count is_abandoned rs
count-is_stale_run [] = refl
count-is_stale_run (r ∷ rs) = rw (abandoned-eq r, count-is_stale_run rs)

-- After the call, with an aware clock, each run of a sync, a retry or an inventory that was running is
-- interrupted at that time with its counters kept, every other run is as it was, and so are the other
-- tables; the answer is the number of the runs that were interrupted.
pub interrupt_stale_crawl_runs-exact :
    (s : Store) (now : DateTime) (t : ℕ)
    → stamp now ≡ ok t
    → (s' : Store) × (interrupt_stale_crawl_runs s now ≡ ok (count is_abandoned s.runs, s'))
      × AreSwept t s.runs s'.runs
      × (s' ≡ record s { runs = s'.runs })
unfolding interrupt_stale_crawl_runs ◌>>=◌
interrupt_stale_crawl_runs-exact s now t e = (
  record s { runs = update_where is_stale_run (interrupt t) s.runs },
  rw (e, count-is_stale_run s.runs) refl,
  swept t s.runs,
  refl,
)
