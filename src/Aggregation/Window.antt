-- ===== src/Aggregation/Window.antt =====
-- internal/core/aggregation/domain/watermark_window.go: the manager that keeps one open window per
-- stream and timeframe, with the types of window_manager.go. Event times and durations are `int64`
-- and their products stay in range. Problems are their codes.
pub mod Open
pub mod Oldest
pub mod Bucket
mod Tests
use stream_analytics.Base.{
  ℕ, zero, suc, ◌*◌, ◌/◌, ◌≡◌, ◌↔◌, refl, Bool, true, false, ◌&&◌, List, [], ◌∷◌, ◌++◌, length,
  Option, none, some, leb, ltb, ◌==◌, if◌then◌else◌, arith,
}
use stream_analytics.Base.Int.{ℤ, pos, negsuc, ltb_ℤ, leb_ℤ, eq_ℤ, ◌-ℤ◌, pos_part}
use stream_analytics.Base.Text.{
  Text, text_eq, text_eq_iff, trim_space, to_lower, to_upper, is_empty,
}
use stream_analytics.Base.Assoc.{Key, lookup, insert, remove}
use stream_analytics.Envelope.{Problem, validation_failed, Result, ok, err, ◌>>=◌, ◌>>◌, refuse_if}

pub record WindowKey : Type 0 where
  pub venue : Text
  pub instrument : Text
  pub timeframe : Text

-- `==` on keys.
pub window_key_eq : WindowKey → WindowKey → Bool
window_key_eq a b =
    text_eq a.venue b.venue
    && (text_eq a.instrument b.instrument && text_eq a.timeframe b.timeframe)

pub window_key_eq_iff : (a b : WindowKey) → (window_key_eq a b ≡ true) ↔ (a ≡ b)
unfolding window_key_eq
window_key_eq_iff a b = ground (
  arith,
  text_eq_iff a.venue b.venue,
  text_eq_iff a.instrument b.instrument,
  text_eq_iff a.timeframe b.timeframe,
)

instance abbrev pub window_key_key : Key WindowKey
window_key_key = record { eq = window_key_eq; eq_iff = window_key_eq_iff }

-- `strings.Compare(s, t) < 0`.
pub text_before : Text → Text → Bool
text_before s [] = false
text_before [] (b ∷ t) = true
text_before (a ∷ s) (b ∷ t) = let rest = text_before s t in if a == b then rest else ltb a b

-- `compareWindowKey(a, b) < 0`.
pub window_key_before : WindowKey → WindowKey → Bool
window_key_before a b =
    if text_eq a.venue b.venue
    then (if text_eq a.instrument b.instrument
        then text_before a.timeframe b.timeframe
        else text_before a.instrument b.instrument)
    else text_before a.venue b.venue

abbrev pub States : Type 0
States = List (WindowKey × ℤ)

-- `watermarkState` is the start of the open window.
pub record WatermarkWindowManager : Type 0 where
  pub max_open_windows : ℕ
  pub late_tolerance_ms : ℤ
  pub states : States
  pub order : List WindowKey

pub record WindowDecision : Type 0 where
  pub window_start : ℤ
  pub should_close_current : Bool
  pub previous_window_start : ℤ
  pub is_late : Bool
  pub forced_close : Option (WindowKey × ℤ)

-- A decision of which only the window is set.
unfoldable pub window_decision : ℤ → WindowDecision
window_decision start = record {
  window_start = start;
  should_close_current = false;
  previous_window_start = pos 0;
  is_late = false;
  forced_close = none;
}

unfoldable pub new_watermark_window_manager : ℤ → ℤ → Result WatermarkWindowManager
new_watermark_window_manager max_open_windows late_tolerance_ms = do
  refuse_if (leb_ℤ max_open_windows (pos 0)) validation_failed
  refuse_if (ltb_ℤ late_tolerance_ms (pos 0)) validation_failed
  ok record {
    max_open_windows = pos_part max_open_windows;
    late_tolerance_ms = late_tolerance_ms;
    states = [];
    order = [];
  }

unfoldable pub active_windows : WatermarkWindowManager → ℕ
active_windows m = length m.states

-- The size of an integer.
abbrev abs : ℤ → ℕ
abs (pos n) = n
abs (negsuc n) = suc n

abbrev negated : ℕ → ℤ
negated zero = pos 0
negated (suc n) = negsuc n

-- The quotient is rounded towards 0, and the product has the sign of the time.
unfoldable pub bucket_window_start : ℤ → ℤ → ℤ
bucket_window_start (pos n) window_ms = pos (n / abs window_ms * abs window_ms)
bucket_window_start (negsuc n) window_ms = negated (suc n / abs window_ms * abs window_ms)

unfoldable pub state_or_zero : Option ℤ → ℤ
state_or_zero none = pos 0
state_or_zero (some start) = start

-- Whether the loop of `oldestWindow` takes the key in place of the oldest so far.
pub is_older : ℤ → ℤ → WindowKey → WindowKey → Bool
is_older state oldest_state key oldest_key =
    if ltb_ℤ state oldest_state
    then true
    else eq_ℤ state oldest_state && window_key_before key oldest_key

-- The loop of `oldestWindow`.
unfoldable pub oldest_from : States → List WindowKey → WindowKey → ℤ → WindowKey × ℤ
oldest_from states [] oldest_key oldest_state = (oldest_key, oldest_state)
oldest_from states (key ∷ keys) oldest_key oldest_state =
    let state = state_or_zero (lookup key states) in
    let older = is_older state oldest_state key oldest_key in
    oldest_from states keys (if older then key else oldest_key)
      (if older then state else oldest_state)

-- `oldestWindow`; `none` where the Go code would fail on an empty order.
unfoldable pub oldest_window : States → List WindowKey → Option (WindowKey × ℤ)
oldest_window states [] = none
oldest_window states (key ∷ keys) =
    some (oldest_from states keys key (state_or_zero (lookup key states)))

unfoldable pub remove_from_order : WindowKey → List WindowKey → List WindowKey
remove_from_order target [] = []
remove_from_order target (key ∷ keys) =
    let rest = remove_from_order target keys in
    if window_key_eq key target then keys else key ∷ rest

unfoldable pub observe_existing :
    WatermarkWindowManager → WindowKey → ℤ → ℤ → WatermarkWindowManager × WindowDecision
observe_existing m key state start =
    if ltb_ℤ start state
    then (if ltb_ℤ m.late_tolerance_ms (state -ℤ start)
        then (m, record (window_decision start) { is_late = true })
        else (m, record (window_decision start) { is_late = true }))
    else if eq_ℤ start state
    then (m, window_decision start)
    else (
      record m { states = insert key start m.states },
      record (window_decision start) { should_close_current = true; previous_window_start = state },
    )

-- The window that is added.
open_window : WatermarkWindowManager → WindowKey → ℤ → WatermarkWindowManager
open_window m key start = record m {
  states = insert key start m.states;
  order = m.order ++ key ∷ [];
}

unfoldable pub close_window : WatermarkWindowManager → WindowKey → WatermarkWindowManager
close_window m key = record m {
  states = remove key m.states;
  order = remove_from_order key m.order;
}

-- The forced close of the window found, and the new window.
replace_window :
    WatermarkWindowManager
    → WindowKey
    → ℤ
    → Option (WindowKey × ℤ)
    → WatermarkWindowManager × WindowDecision
unfolding open_window close_window
replace_window m key start none = (open_window m key start, window_decision start)
replace_window m key start (some (forced_key, forced_state)) = (
  open_window (close_window m forced_key) key start,
  record (window_decision start) { forced_close = some (forced_key, forced_state) },
)

unfoldable pub observe_new :
    WatermarkWindowManager → WindowKey → ℤ → WatermarkWindowManager × WindowDecision
unfolding replace_window
observe_new m key start =
    if leb m.max_open_windows (length m.states)
    then replace_window m key start (oldest_window m.states m.order)
    else (open_window m key start, window_decision start)

unfoldable pub normalized_key : WindowKey → WindowKey
normalized_key key = record {
  venue = to_lower (trim_space key.venue);
  instrument = to_upper (trim_space key.instrument);
  timeframe = to_lower (trim_space key.timeframe);
}

-- The validations of `Observe`.
unfoldable pub check_event : WindowKey → ℤ → ℤ → Result (Unit {0})
check_event key event_ts_ms window_duration_ms = do
  refuse_if (is_empty (trim_space key.venue)) validation_failed
  refuse_if (is_empty (trim_space key.instrument)) validation_failed
  refuse_if (is_empty (trim_space key.timeframe)) validation_failed
  refuse_if (leb_ℤ window_duration_ms (pos 0)) validation_failed
  refuse_if (ltb_ℤ event_ts_ms (pos 0)) validation_failed

unfoldable pub observe_window :
    WatermarkWindowManager → WindowKey → ℤ → WatermarkWindowManager × WindowDecision
observe_window m key start = elim (lookup key m.states) [
  | some state ↦ observe_existing m key state start
  | none ↦ observe_new m key start
]

-- The manager and the decision, or the problem.
abbrev refused :
    WatermarkWindowManager
    → WatermarkWindowManager × WindowDecision
    → Result (Unit {0})
    → WatermarkWindowManager × Result WindowDecision
refused m (m', d) (ok _) = (m', ok d)
refused m (m', d) (err p) = (m, err p)

-- `Observe`.
unfoldable pub observe :
    WatermarkWindowManager → WindowKey → ℤ → ℤ → WatermarkWindowManager × Result WindowDecision
unfolding refused
observe m key event_ts_ms window_duration_ms =
    refused m
      (observe_window m (normalized_key key) (bucket_window_start event_ts_ms window_duration_ms))
      (check_event key event_ts_ms window_duration_ms)
