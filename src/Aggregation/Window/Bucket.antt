-- ===== src/Aggregation/Window/Bucket.antt =====
-- The window that an event falls into.
use native.Mathlib.Nat.{div-add-mod, mod-lt}
use stream_analytics.Base.{ℕ, ◌*◌, ◌/◌, ◌≡◌, refl, arith}
use stream_analytics.Base.Int.{ℤ, pos, negsuc, ◌≤ℤ◌, ◌<ℤ◌, ◌+ℤ◌, int_laws}
use stream_analytics.Aggregation.Window.{bucket_window_start}

-- For an event at or after time 0 and a positive duration, the window is a multiple of the
-- duration, starts at or before the event, and ends after it.
pub bucket_window_start_covers :
    (event_ts_ms window_duration_ms : ℤ)
    → pos 0 ≤ℤ event_ts_ms
    → pos 0 <ℤ window_duration_ms
    → let start = bucket_window_start event_ts_ms window_duration_ms in
      (start ≤ℤ event_ts_ms)
      × (event_ts_ms <ℤ start +ℤ window_duration_ms)
      × ((n : ℕ) × (d : ℕ) × (window_duration_ms ≡ pos d) × (start ≡ pos (n * d)))
unfolding bucket_window_start
bucket_window_start_covers (negsuc n) d l p = absurd (omega arith)
bucket_window_start_covers (pos n) (negsuc d) l p = absurd (omega arith)
bucket_window_start_covers (pos n) (pos d) l p = (
  omega (arith, div-add-mod n d, mod-lt n p),
  omega (int_laws, div-add-mod n d, mod-lt n p),
  (n / d, d, refl, refl),
)
