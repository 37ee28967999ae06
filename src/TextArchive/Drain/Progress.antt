-- ===== src/TextArchive/Drain/Progress.antt =====
-- That a batch whose import fails does not keep the later ones from being imported.
use mathlib.Core.Path.{subst}
use re_dstm.Prelude.{
  ℕ, zero, suc, ◌+◌, ◌≤◌, ◌<◌, String, ◌≡◌, refl, sym, inl, inr, Bool, true, false, not, ◌&&◌,
  Option, none, some, List, [], ◌∷◌, arith, leb, str_eq, str_eq_iff, text_in, Bool-cases, All,
}
use re_dstm.TextArchive.Attempts.{Slot, backoff_active}
use re_dstm.TextArchive.Drain.{
  Batch, is_open, next_ready_batch, Import, window_shut, unstarted, unfinished, imported, refused,
  broke, Outcome, rejected, failed, done, State, Ended, outcome, import_one, Round, Exit,
  nothing_ready, seen_again, full, too_late, window_closed, batch_not_ready, out_of_rounds, Drain,
  drain_batches, after_import, with_batch, round, and_then, drain,
}
use re_dstm.TextArchive.Drain.Settled.{
  leaves_mark, Shut, Settled, picked-not_shut, import_one-Settled,
}

-- every open batch backs off
abbrev pub AllWait : State → ℕ → Type 0
AllWait s now =
    All (λ (b : Batch). is_open b ≡ true → backoff_active s.slots b.name now ≡ true) s.inbox

none_ready :
    (inbox : List Batch) (slots : List Slot) (now : ℕ)
    → next_ready_batch inbox slots now ≡ none
    → All (λ (b : Batch). is_open b ≡ true → backoff_active slots b.name now ≡ true) inbox
unfolding next_ready_batch
none_ready [] slots now e = tt
none_ready (b ∷ inbox) slots now e =
    elim (Bool-cases (is_open b && not (backoff_active slots b.name now))) [
      | inl y ↦ absurd (clash (rw y at e))
      | inr n ↦ (
        waits (is_open b) (backoff_active slots b.name now) n,
        none_ready inbox slots now (rw n at e),
      )
    ]
  where
    clash : some b.name ≡ none → ⊥
    clash e = cc

    waits : (p q : Bool) → (p && not q) ≡ false → p ≡ true → q ≡ true
    waits p q h y = ground arith

-- why the loop ended
abbrev pub Because : (ℕ → Round) → Exit × Drain → Type 0
Because world (nothing_ready, d) = (i : ℕ) × AllWait d.state (world i).now
Because world (seen_again, d) = ⊥
Because world (full, d) = drain_batches ≤ d.imported
Because world (too_late, d) = (i : ℕ) × ((world i).is_late ≡ true)
Because world (window_closed, d) = (i : ℕ) × (id : String) × ((world i).result id ≡ window_shut)
Because world (batch_not_ready, d) = (i : ℕ) × (id : String) × ((world i).result id ≡ unfinished)
Because world (out_of_rounds, d) = ⊥

module _ (P : String → Type 0) where
  All-member : (xs : List String) (id : String) → text_in id xs ≡ true → All P xs → P id
  All-member [] id e h = cc
  All-member (x ∷ xs) id e h = elim (Bool-cases (str_eq id x)) [
    | inl y ↦ subst P (sym ((str_eq_iff id x).0 y)) h.0
    | inr n ↦ All-member xs id (rw n at e) h.1
  ]

not_same : (id other : String) → str_eq id other ≡ false → str_eq other id ≡ false
not_same id other e = ground (arith, str_eq_iff id other, str_eq_iff other id)

module _ (until : ℕ) (s s' : State) (id : String)
    (kept : (other : String)
      → str_eq other id ≡ false
      → Shut until s other
      → Shut until s' other) where
  still_shut :
      (seen : List String)
      → text_in id seen ≡ false
      → All (Shut until s) seen
      → All (Shut until s') seen
  still_shut [] n h = tt
  still_shut (x ∷ seen) n h =
      (kept x (not_same id x (ground arith)) h.0, still_shut seen (ground arith) h.1)

module _ (world : ℕ → Round) (until : ℕ) where
  -- the loop may go on: fewer than twenty imports, and no batch that was seen can be picked again
  record Ready (d : Drain) : Type 0 where
    few : d.imported < drain_batches
    shut : All (Shut until d.state) d.seen

  module _ (i : ℕ) (d : Drain) (ready : Ready d) (soon : (world i).now < until)
      (long : until ≤ (world i).now + 300)
      (marks : (id : String) → leaves_mark ((world i).result id) ≡ true)
      (rest : Drain → Exit × Drain)
      (next : (e : Drain) → e.imported ≡ suc d.imported → Ready e → Because world (rest e)) where
    abbrev GoOn : String → Ended → Type 0
    GoOn id e =
        Because world
          (and_then (after_import (record d { seen = id ∷ d.seen }) id (world i).is_late e) rest)

    counted :
        (id : String) (o : Outcome) (s : State)
        → text_in id d.seen ≡ false
        → Settled until d.state id (outcome o s)
        → GoOn id (outcome o s)
    counted id o s n h = elim (Bool-cases (leb drain_batches (d.imported + 1))) [
      | inl y ↦ rw y (enough (d.imported + 1) y)
      | inr m ↦ elim (Bool-cases (world i).is_late) [
        | inl y ↦ rw (m, y) (i, y)
        | inr k ↦
            rw (m, k)
              (next _ (omega arith) (record {
                few = below (d.imported + 1) m;
                shut = (h.1, still_shut until d.state s id h.0 d.seen n ready.shut);
              }))
      ]
    ]
      where
        enough : (n : ℕ) → leb drain_batches n ≡ true → drain_batches ≤ n
        enough n e = ground arith

        below : (n : ℕ) → leb drain_batches n ≡ false → n < drain_batches
        below n e = ground arith

    imported_one :
        (id : String) (r : Import)
        → text_in id d.seen ≡ false
        → (world i).result id ≡ r
        → Settled until d.state id (import_one d.state id (world i).now r)
        → GoOn id (import_one d.state id (world i).now r)
    unfolding import_one
    imported_one id window_shut n e h = (i, id, e)
    imported_one id unfinished n e h = (i, id, e)
    imported_one id unstarted n e h = counted id failed _ n h
    imported_one id imported n e h = counted id done _ n h
    imported_one id (refused marked) n e h = counted id rejected _ n h
    imported_one id (broke error writable) n e h = counted id failed _ n h

    picked :
        (o : Option String)
        → next_ready_batch d.state.inbox d.state.slots (world i).now ≡ o
        → Because world (and_then (with_batch d (world i) o) rest)
    picked none e = (i, none_ready d.state.inbox d.state.slots (world i).now e)
    picked (some id) e = elim (Bool-cases (text_in id d.seen)) [
      | inl y ↦ absurd (
          picked-not_shut d.state.inbox d.state.slots (world i).now until id e soon
            (All-member (Shut until d.state) d.seen id y ready.shut))
      | inr n ↦ rw n (
          imported_one id ((world i).result id) n refl (
            import_one-Settled until (world i).now long d.state id ((world i).result id)
              (marks id)))
    ]

    round-Because : Because world (and_then (round d (world i)) rest)
    unfolding round
    round-Because = picked (next_ready_batch d.state.inbox d.state.slots (world i).now) refl

  module _ (soon : (i : ℕ) → (world i).now < until) (long : (i : ℕ) → until ≤ (world i).now + 300)
      (marks : (i : ℕ) (id : String) → leaves_mark ((world i).result id) ≡ true) where
    drain-Because_from :
        (fuel i : ℕ) (d : Drain)
        → d.imported + fuel ≡ drain_batches
        → Ready d
        → Because world (drain world fuel i d)
    unfolding drain
    drain-Because_from zero i d e ready = absurd (omega (arith, e, ready.few))
    drain-Because_from (suc fuel) i d e ready =
        round-Because i d ready (soon i) (long i) (marks i) (λ x. drain world fuel (suc i) x)
          (λ x n r. drain-Because_from fuel (suc i) x (omega (arith, e, n)) r)

    -- A run of the importer, of at most 20 rounds, that lasts less than the shortest backoff and in which
    -- each batch that fails or is rejected leaves its mark, never ends for want of rounds or since a
    -- batch comes up again: it ends when each open batch backs off, at the limit of 20 imports or of
    -- time, at a shut window, or at a batch that is not ready.
    pub drain-Because :
        (s : State)
        → Because world (
            drain world drain_batches 0
              (record { state = s; seen = []; imported = 0; is_failed = false }))
    drain-Because s =
        drain-Because_from drain_batches 0 _ (omega arith) (record { few = omega arith; shut = tt })
