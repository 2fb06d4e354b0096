-- ===== src/Ingest/RetryBudget/Bounded.antt =====
-- Any sequence of calls on one table.
use stream_analytics.Base.{◌<◌, ◌≤◌, ◌≡◌, subst, false, List, [], ◌∷◌, length-replicate, arith}
use stream_analytics.Base.Int.{ℤ}
use stream_analytics.Base.Text.{Text, text_key, is_empty}
use stream_analytics.Base.Assoc.{lookup}
use stream_analytics.Ingest.RetryBudget.{
  new_retry_budget_tracker, RetryBudgetTracker, increment, reset, size,
}
use stream_analytics.Ingest.RetryBudget.Slots.{get_or-replicate, used-replicate, used-le}
use stream_analytics.Ingest.RetryBudget.Table.{IsValid}
use stream_analytics.Ingest.RetryBudget.Attempt.{increment-IsValid}
use stream_analytics.Ingest.RetryBudget.Reset.{reset-IsValid}

table_size-positive : (max_size : ℤ) → 0 < (new_retry_budget_tracker max_size).max_size
unfolding new_retry_budget_tracker
table_size-positive max_size = ground arith

pub new_retry_budget_tracker-IsValid : (max_size : ℤ) → IsValid (new_retry_budget_tracker max_size)
unfolding new_retry_budget_tracker lookup
new_retry_budget_tracker-IsValid max_size = record {
  positive = table_size-positive max_size;
  sized = length-replicate _ [];
  inside = table_size-positive max_size;
  distinct = tt;
  named = λ k e h. absurd (ground (arith, h));
  points = λ k e h. absurd (ground (arith, h));
  owned = λ i h full. absurd (
      let z =
        subst (λ j. is_empty j ≡ false)
          (get_or-replicate (new_retry_budget_tracker max_size).max_size i) full in
      unfold is_empty in ground (arith, z));
  counted = used-replicate _;
}

pub data Call : Type 0 where
  increments resets : Text → Call

unfoldable pub run : RetryBudgetTracker → List Call → RetryBudgetTracker
run t [] = t
run t (increments key ∷ calls) = run (increment t key).0 calls
run t (resets key ∷ calls) = run (reset t key) calls

-- After any increments and resets of a valid table, each entry holds a slot with its key, each slot in
-- use has its entry, and there are no more entries than slots.
pub run_within_slots :
    (t : RetryBudgetTracker) (calls : List Call)
    → IsValid t
    → IsValid (run t calls) × (size (run t calls) ≤ (run t calls).max_size)
unfolding run size
run_within_slots t [] v = (v, omega (arith, v.counted, used-le t.ring, v.sized))
run_within_slots t (increments key ∷ calls) v =
    run_within_slots (increment t key).0 calls (increment-IsValid t key v)
run_within_slots t (resets key ∷ calls) v =
    run_within_slots (reset t key) calls (reset-IsValid t key v)
