-- ===== src/Ingest/RetryBudget.antt =====
-- internal/adapters/jetstream/retry_budget.go: the bounded table of attempts by partition
-- (`retryBudgetTracker`), used where the broker gives no delivery count. The mutex makes a method one
-- step. A nil tracker is not a state.
pub mod Slots
pub mod Table
pub mod NewKey
pub mod Attempt
pub mod Reset
pub mod Bounded
mod Tests
use stream_analytics.Base.{
  ℕ, ◌+◌, ◌%◌, ◌<◌, ◌≡◌, Bool, true, false, List, Option, none, some, [], ◌∷◌, set, get_or, length,
  replicate, ltb, if◌then◌else◌, not,
}
use stream_analytics.Base.Int.{ℤ, pos, leb_ℤ, pos_part}
use stream_analytics.Base.Text.{Text, text_key, trim_space, is_empty}
use stream_analytics.Base.Assoc.{lookup, insert, remove}

pub record RetryBudgetEntry : Type 0 where
  pub attempts : ℕ
  pub slot : ℕ

abbrev pub Entries : Type 0
Entries = List (Text × RetryBudgetEntry)

pub record RetryBudgetTracker : Type 0 where
  pub max_size : ℕ
  pub next : ℕ
  pub ring : List Text
  pub entries : Entries

unfoldable pub new_retry_budget_tracker : ℤ → RetryBudgetTracker
new_retry_budget_tracker max_size =
    let size = if leb_ℤ max_size (pos 0) then 1024 else pos_part max_size in
    record { max_size = size; next = 0; ring = replicate size []; entries = [] }

-- The victim's entry is deleted.
unfoldable pub evict : Text → Entries → Entries
evict victim entries = if is_empty victim then entries else remove victim entries

-- A key that is not in the table takes the next slot.
unfoldable pub take_slot : RetryBudgetTracker → Text → RetryBudgetTracker
take_slot t key = record t {
  next = (t.next + 1) % t.max_size;
  ring = set t.ring t.next key;
  entries =
      insert key (record { attempts = 1; slot = t.next })
        (evict (get_or t.ring t.next []) t.entries);
}

-- The table after `increment`, the number of attempts, and whether a key was evicted.
unfoldable pub increment : RetryBudgetTracker → Text → RetryBudgetTracker × ℕ × Bool
increment t key = if is_empty (trim_space key) then (t, 0, false) else elim (lookup key t.entries) [
  | some entry ↦ (
    record t { entries = insert key (record entry { attempts = entry.attempts + 1 }) t.entries },
    entry.attempts + 1,
    false,
  )
  | none ↦ (take_slot t key, 1, not (is_empty (get_or t.ring t.next [])))
]

unfoldable pub reset : RetryBudgetTracker → Text → RetryBudgetTracker
reset t key = if is_empty (trim_space key) then t else elim (lookup key t.entries) [
  | none ↦ t
  | some entry ↦ record t {
    ring = if ltb entry.slot (length t.ring) then set t.ring entry.slot [] else t.ring;
    entries = remove key t.entries;
  }
]

unfoldable pub size : RetryBudgetTracker → ℕ
size t = length t.entries

-- `withTransientRetryBudget`.
unfoldable pub with_transient_retry_budget : ℤ → ℕ
with_transient_retry_budget (pos n) = if ltb 0 n then (if ltb n 3 then n else 3) else 3
with_transient_retry_budget _ = 3
