-- ===== src/Store/Evidence.antt =====
-- That the WARC record of a capture is found again.
use re_dstm.Prelude.{
  ℕ, String, ◌≡◌, refl, ap, ◌∙◌, Bool, true, Option, some, List, [], ◌∷◌, ◌++◌, ok, str_eq_refl,
}
use re_dstm.Prelude.Ensures.{Ensures, Ensures-ok, Ensures-raise_if, Ensures-bind}
use re_dstm.Frontier.Table.{State}
use re_dstm.Frontier.Clock.{DateTime}
use re_dstm.Frontier.Lease.{Lease}
use re_dstm.Store.Tables.{Outcome, Capture, Store, add_capture}
use re_dstm.Store.Captures.{
  Evidence, record_listing, record_outcome, find_last, warc_at, warc_names, find_warc_capture,
}

find_last-append :
    (p : Capture → Bool) (cs : List Capture) (c : Capture)
    → p c ≡ true
    → find_last p (cs ++ c ∷ []) ≡ some c
unfolding find_last
find_last-append p [] c y = rw y
find_last-append p (d ∷ cs) c y = rw (find_last-append p cs c y)

-- a response that was written to a WARC file
abbrev pub in_file : String → String → String → Evidence
in_file sha file id = record {
  raw_sha256 = some sha;
  warc_file = some file;
  warc_record_id = some id;
}

-- the lookup by hash and URL gives this record
abbrev IsFound : String → String → String → String → ℕ × Store → Type 0
IsFound sha url file id r = find_warc_capture r.1 sha url ≡ some (some file, some id)

module _ (s : Store) (sha file id run_id url : String) where
  add_capture-IsFound :
      (c : Capture)
      → c.url ≡ url
      → c.raw_sha256 ≡ some sha
      → c.warc_file ≡ some file
      → c.warc_record_id ≡ some id
      → (t : Store) → t.captures ≡ s.captures ++ c ∷ []
      → find_warc_capture t sha url ≡ some (some file, some id)
  unfolding find_warc_capture
  add_capture-IsFound c u h f i t e =
      ap warc_names (
        ap (find_last (warc_at sha url)) e
        ∙ find_last-append (warc_at sha url) s.captures c
            (rw (h, u, f, i) (rw (str_eq_refl sha, str_eq_refl url))))
      ∙ rw (f, i)

  -- What `record_listing` stores is what the lookup then gives, whatever the store held before.
  pub find_warc_capture-record_listing :
      (fetched_at : DateTime) (http_status : ℕ) (code : Option String) (n : ℕ) (t : Store)
      → record_listing s run_id url fetched_at http_status (in_file sha file id) code ≡ ok (n, t)
      → find_warc_capture t sha url ≡ some (some file, some id)
  find_warc_capture-record_listing fetched_at http_status code n t e = found.at (n, t) e
    where
      found :
          Ensures
            (IsFound sha url file id)
            (record_listing s run_id url fetched_at http_status (in_file sha file id) code)
      found =
          unfold record_listing add_capture in
          Ensures-bind _ _ λ at _.
            Ensures-bind _ _ λ u _. Ensures-ok _ (add_capture-IsFound _ refl refl refl refl _ refl)

  -- What `record_outcome` stores is what the lookup then gives, whatever the store held before and
  -- whatever the outcome.
  pub find_warc_capture-record_outcome :
      (outcome : Outcome) (fetched_at : DateTime) (http_status : Option ℕ)
      (ref : Option (String × ℕ)) (code : Option String) (lease : Option Lease) (state : State)
      (retry : Option DateTime) (n : ℕ) (t : Store)
      → record_outcome s run_id url outcome fetched_at http_status ref code
          (in_file sha file id)
          lease
          state
          retry
        ≡ ok (n, t)
      → find_warc_capture t sha url ≡ some (some file, some id)
  find_warc_capture-record_outcome outcome fetched_at http_status ref code lease state retry n t e =
      found.at (n, t) e
    where
      found : Ensures (IsFound sha url file id) (
          record_outcome s run_id url outcome fetched_at http_status ref code
            (in_file sha file id)
            lease
            state
            retry)
      found =
          unfold record_outcome add_capture in
          Ensures-bind _ _ λ at _. Ensures-raise_if _ _ _ λ _. Ensures-bind _ _ λ u _.
            Ensures-bind _ _ λ b _. Ensures-ok _ (add_capture-IsFound _ refl refl refl refl _ refl)
