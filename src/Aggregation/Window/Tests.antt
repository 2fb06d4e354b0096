-- ===== src/Aggregation/Window/Tests.antt =====
-- A manager of two windows, both open.
use stream_analytics.Base.{ℕ, ◌*◌, ◌≡◌, refl, true, false, [], ◌∷◌, none, some, arith}
use stream_analytics.Base.Int.{pos, ◌≤ℤ◌, ◌<ℤ◌, ◌+ℤ◌}
use stream_analytics.Base.Text.{text, text_eq}
use stream_analytics.Base.Assoc.{lookup}
use stream_analytics.Aggregation.Window.{
  WindowKey, window_key_key, window_key_eq, WatermarkWindowManager, observe, observe_new,
  observe_existing, bucket_window_start,
}
use stream_analytics.Aggregation.Window.Open.{
  IsValid, empty-IsValid, observe-IsValid, Closes, observe_new-Closes, observe_existing_lem,
}
use stream_analytics.Aggregation.Window.Bucket.{bucket_window_start_covers}

abbrev candle : WindowKey
candle = record { venue = text "binance"; instrument = text "BTCUSDT"; timeframe = text "1m" }

abbrev initial : WatermarkWindowManager
initial = record { max_open_windows = 1; late_tolerance_ms = pos 0; states = []; order = [] }

initial-IsValid : IsValid initial
initial-IsValid = empty-IsValid 1 (pos 0) (omega arith)

-- The manager with the window of `candle` open.
abbrev one : WatermarkWindowManager
one = (observe initial candle (pos 60500) (pos 60000)).0

one-IsValid : IsValid one
one-IsValid = observe-IsValid initial candle (pos 60500) (pos 60000) initial-IsValid

observe-IsValid_example : IsValid (observe one candle (pos 120500) (pos 60000)).0
observe-IsValid_example = observe-IsValid one candle (pos 120500) (pos 60000) one-IsValid

observe_new-Closes_example :
    let (m, d) = observe_new one (record candle { timeframe = text "5m" }) (pos 0) in
    Closes one (record candle { timeframe = text "5m" }) (pos 0) m d
observe_new-Closes_example =
    observe_new-Closes one (record candle { timeframe = text "5m" }) (pos 0) one-IsValid

abbrev manager : WatermarkWindowManager
manager = record initial { states = (candle, pos 60000) ∷ []; order = candle ∷ [] }

observe_existing_lem_example :
    let (m, d) = observe_existing manager candle (pos 60000) (pos 120000) in
    (d.window_start ≡ pos 120000)
    × (d.is_late ≡ false)
    × (d.should_close_current ≡ true)
    × (d.previous_window_start ≡ pos 60000)
    × (d.forced_close ≡ none)
    × (lookup candle m.states ≡ some (pos 120000))
    × (record m { states = manager.states } ≡ manager)
unfolding window_key_eq text_eq
observe_existing_lem_example =
    observe_existing_lem manager candle candle (pos 60000) (pos 120000)
      (unfold lookup window_key_eq text_eq in refl)

bucket_window_start_covers_example :
    let start = bucket_window_start (pos 60500) (pos 60000) in
    (start ≤ℤ pos 60500)
    × (pos 60500 <ℤ start +ℤ pos 60000)
    × ((n : ℕ) × (d : ℕ) × (pos 60000 ≡ pos d) × (start ≡ pos (n * d)))
bucket_window_start_covers_example =
    bucket_window_start_covers (pos 60500) (pos 60000) (omega arith) (omega arith)
