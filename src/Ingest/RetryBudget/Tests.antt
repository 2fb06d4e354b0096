-- ===== src/Ingest/RetryBudget/Tests.antt =====
-- A table of two slots and three keys.
use stream_analytics.Base.{◌≤◌, List, [], ◌∷◌}
use stream_analytics.Base.Int.{pos}
use stream_analytics.Base.Text.{text}
use stream_analytics.Ingest.RetryBudget.{RetryBudgetTracker, new_retry_budget_tracker, size}
use stream_analytics.Ingest.RetryBudget.Table.{IsValid}
use stream_analytics.Ingest.RetryBudget.Bounded.{
  Call, increments, resets, run, new_retry_budget_tracker-IsValid, run_within_slots,
}

abbrev table : RetryBudgetTracker
table = new_retry_budget_tracker (pos 2)

abbrev calls : List Call
calls =
    increments (text "binance|BTCUSDT")
    ∷ increments (text "kraken|XBTUSD")
    ∷ increments (text "binance|BTCUSDT")
    ∷ resets (text "kraken|XBTUSD")
    ∷ increments (text "bybit|ETHUSDT")
    ∷ []

run_within_slots_example :
    IsValid (run table calls) × (size (run table calls) ≤ (run table calls).max_size)
run_within_slots_example = run_within_slots table calls (new_retry_budget_tracker-IsValid (pos 2))
