-- ===== src/Ingest/RetryBudget/Table.antt =====
-- What the table is at any time: slots and entries belong to each other.
use stream_analytics.Base.{ℕ, ◌<◌, ◌≡◌, false, [], Option, none, some, get_or, length}
use stream_analytics.Base.Text.{Text, text_key, is_empty}
use stream_analytics.Base.Assoc.{lookup, Distinct}
use stream_analytics.Ingest.RetryBudget.{RetryBudgetEntry, RetryBudgetTracker}
use stream_analytics.Ingest.RetryBudget.Slots.{used}

pub record IsValid (t : RetryBudgetTracker) : Type 0 where
  pub positive : 0 < t.max_size
  pub sized : length t.ring ≡ t.max_size
  pub inside : t.next < t.max_size
  pub distinct : Distinct t.entries
  pub named : (k : Text) (e : RetryBudgetEntry) → lookup k t.entries ≡ some e → is_empty k ≡ false
  pub points :
      (k : Text) (e : RetryBudgetEntry)
      → lookup k t.entries ≡ some e
      → (e.slot < t.max_size) × (get_or t.ring e.slot [] ≡ k)
  pub owned :
      (i : ℕ)
      → i < t.max_size
      → is_empty (get_or t.ring i []) ≡ false
      → (e : RetryBudgetEntry) × (lookup (get_or t.ring i []) t.entries ≡ some e) × (e.slot ≡ i)
  pub counted : used t.ring ≡ length t.entries

abbrev pub slot_or_zero : Option RetryBudgetEntry → ℕ
slot_or_zero none = 0
slot_or_zero (some e) = e.slot
