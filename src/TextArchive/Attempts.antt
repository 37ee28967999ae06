-- ===== src/TextArchive/Attempts.antt =====
-- scripts/text_archive/attempts.py: one record for each batch, with the number of attempts and the time
-- before which it is not tried again. Times are seconds.
pub mod Laws
use Prim.Native.String.{◌++◌ as append}
use re_dstm.Prelude.{
  ℕ, suc, ◌+◌, ◌-◌, min, max, String, Bool, true, false, not, Option, none, some, List, [], ◌∷◌,
  ltb, ◌==◌, str_eq, if◌then◌else◌, filter, find,
}

pub record Attempt : Type 0 where
  pub attempts : ℕ
  pub next_at : ℕ
  pub reason : String

-- The file of a batch. `none` is a file that cannot be read as a record.
pub record Slot : Type 0 where
  pub batch_id : String
  pub content : Option Attempt

-- BACKOFF_SECONDS, and `BACKOFF_SECONDS[min(attempts, 4) - 1]`, where index -1 is the last
abbrev pub delay : ℕ → ℕ
delay n = if n == 1 then 300 else if n == 2 then 900 else if n == 3 then 1800 else 3600

abbrev pub of_batch : String → Slot → Bool
of_batch id s = str_eq s.batch_id id

abbrev content_of : Option Slot → Option Attempt
content_of none = none
content_of (some s) = s.content

unfoldable pub read : List Slot → String → Option Attempt
read slots id = content_of (find (of_batch id) slots)

abbrev pub is_later : ℕ → Option Attempt → Bool
is_later now none = false
is_later now (some a) = ltb now a.next_at

unfoldable pub backoff_active : List Slot → String → ℕ → Bool
unfolding read
backoff_active slots id now = is_later now (read slots id)

abbrev count_of : Option Attempt → ℕ
count_of none = 0
count_of (some a) = a.attempts

unfoldable pub previous : List Slot → String → ℕ
unfolding read
previous slots id = count_of (read slots id)

unfoldable pub clear : List Slot → String → List Slot
clear slots id = filter (λ s. not (of_batch id s)) slots

unfoldable pub write : List Slot → String → ℕ → String → ℕ → List Slot
unfolding clear
write slots id attempts reason now =
    record {
      batch_id = id;
      content =
          some (record { attempts = attempts; next_at = now + delay attempts; reason = reason });
    }
    ∷ clear slots id

unfoldable pub begin : List Slot → String → ℕ → List Slot
unfolding previous write
begin slots id now = write slots id (previous slots id + 1) "import_started" now

-- `error` is the name of the exception's type. An attempts root that cannot be written leaves the
-- records as they are.
unfoldable pub record_failure : List Slot → String → String → Bool → ℕ → List Slot
unfolding previous write
record_failure slots id error writable now =
    if writable
    then write slots id (max 1 (previous slots id)) (append "import_failed:" error) now
    else slots

unfoldable pub not_ready : List Slot → String → ℕ → List Slot
unfolding previous write clear
not_ready slots id now =
    let attempts = previous slots id - 1 in
    if ltb 0 attempts then write slots id attempts "import_not_ready" now else clear slots id
