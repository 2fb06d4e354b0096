-- ===== src/Aggregation/Window/Open.antt =====
-- The open windows: the map and the order hold the same keys, within the bound.
use stream_analytics.Base.{
  ℕ, ◌<◌, ◌≤◌, ◌≡◌, refl, sym, ◌∙◌, Bool, true, false, ◌||◌, List, [], ◌∷◌, ◌++◌, length, none,
  some, ap, leb, if◌then◌else◌, arith, Bool-cases, Option-cases, inl, inr,
}
use stream_analytics.Base.Int.{ℤ, pos, ltb_ℤ, eq_ℤ, ◌-ℤ◌}
use stream_analytics.Base.Assoc.{
  lookup, insert, remove, lookup-insert, lookup-remove, length-insert, length-remove-lt,
}
use stream_analytics.Envelope.{Result, ok, err}
use stream_analytics.Aggregation.Window.Oldest.{elem, oldest_window_lem, IsOldest}
use stream_analytics.Aggregation.Window.{
  WindowKey, window_decision, window_key_eq, window_key_eq_iff, window_key_key, States,
  WatermarkWindowManager, WindowDecision, oldest_window, remove_from_order, open_window,
  close_window, replace_window, observe_existing, observe_new, observe_window, observe, check_event,
  refused, normalized_key, bucket_window_start,
}

unfoldable pub has : WindowKey → States → Bool
has k m = elim (lookup k m) [ none ↦ false | some _ ↦ true ]

-- No key twice.
abbrev pub NoDup : List WindowKey → Type 0
NoDup [] = Unit {0}
NoDup (x ∷ xs) = (elem x xs ≡ false) × NoDup xs

pub record IsValid (m : WatermarkWindowManager) : Type 0 where
  pub positive : 0 < m.max_open_windows
  pub same : (k : WindowKey) → has k m.states ≡ elem k m.order
  pub once : NoDup m.order
  pub bounded : length m.states ≤ m.max_open_windows

elem-append :
    (k x : WindowKey) (xs : List WindowKey)
    → elem k (xs ++ x ∷ []) ≡ (elem k xs || window_key_eq x k)
unfolding elem
elem-append k x [] = ground arith
elem-append k x (y ∷ ys) = ground (arith, elem-append k x ys)

append-NoDup :
    (x : WindowKey) (xs : List WindowKey) → NoDup xs → elem x xs ≡ false → NoDup (xs ++ x ∷ [])
unfolding elem
append-NoDup x [] d n = (refl, tt)
append-NoDup x (y ∷ ys) (a, d) n = (
  ground (arith, elem-append y x ys, window_key_eq_iff x y, window_key_eq_iff y x),
  append-NoDup x ys d (ground arith),
)

has-insert :
    (k x : WindowKey) (v : ℤ) (m : States) → has k (insert x v m) ≡ (has k m || window_key_eq x k)
unfolding has
has-insert k x v m = ground (arith, lookup-insert x k v m)

has-remove :
    (k x : WindowKey) (m : States)
    → has k (remove x m) ≡ (if window_key_eq x k then false else has k m)
unfolding has
has-remove k x m = ground (arith, lookup-remove x k m)

elem-remove_from_order :
    (k x : WindowKey) (xs : List WindowKey)
    → NoDup xs
    → elem k (remove_from_order x xs) ≡ (if window_key_eq x k then false else elem k xs)
unfolding elem remove_from_order
elem-remove_from_order k x [] d = ground arith
elem-remove_from_order k x (y ∷ ys) (a, d) = ground (
  arith,
  elem-remove_from_order k x ys d,
  window_key_eq_iff x k,
  window_key_eq_iff y x,
  window_key_eq_iff y k,
)

remove_from_order-NoDup :
    (x : WindowKey) (xs : List WindowKey) → NoDup xs → NoDup (remove_from_order x xs)
unfolding remove_from_order
remove_from_order-NoDup x [] d = tt
remove_from_order-NoDup x (y ∷ ys) (a, d) = elim (Bool-cases (window_key_eq y x)) [
  | inl e ↦ rw e d
  | inr e ↦ rw e (ground (arith, elem-remove_from_order y x ys d), remove_from_order-NoDup x ys d)
]

open_window-IsValid :
    (m : WatermarkWindowManager) (key : WindowKey) (start : ℤ)
    → IsValid m
    → has key m.states ≡ false
    → length m.states < m.max_open_windows
    → IsValid (open_window m key start)
unfolding open_window
open_window-IsValid m key start v n room = record {
  positive = v.positive;
  same = λ k. ground (arith, has-insert k key start m.states, v.same k, elem-append k key m.order);
  once = append-NoDup key m.order v.once (sym (v.same key) ∙ n);
  bounded = ground (arith, length-insert key start m.states, room);
}

close_window-IsValid :
    (m : WatermarkWindowManager) (key : WindowKey)
    → IsValid m
    → has key m.states ≡ true
    → IsValid (close_window m key) × (length (close_window m key).states < m.max_open_windows)
unfolding close_window has
close_window-IsValid m key v h = (
  record {
    positive = v.positive;
    same = λ k.
        ground
          (arith, has-remove k key m.states, v.same k, elem-remove_from_order k key m.order v.once);
    once = remove_from_order-NoDup key m.order v.once;
    bounded =
        let b : length (remove key m.states) ≤ m.max_open_windows =
          omega (arith, smaller, v.bounded) in
        b;
  },
  let b : length (remove key m.states) < m.max_open_windows = omega (arith, smaller, v.bounded) in
      b,
)
  where
    smaller : length (remove key m.states) < length m.states
    smaller = elim (Option-cases (lookup key m.states)) [
      | inl e ↦ absurd (ground arith)
      | inr (s, e) ↦ length-remove-lt key s m.states e
    ]

has_first : (m : States) → 0 < length m → (k : WindowKey) × (has k m ≡ true)
unfolding has lookup
has_first [] h = absurd (omega arith)
has_first ((k, s) ∷ m) h = (k, ground (arith, window_key_eq_iff k k))

-- A full manager has an oldest window, which is open.
pub full-IsOldest :
    (m : WatermarkWindowManager)
    → IsValid m
    → 0 < length m.states
    → (k : WindowKey) × (s : ℤ) × (oldest_window m.states m.order ≡ some (k, s))
      × IsOldest m.states m.order k s
full-IsOldest m v h =
    let (k, e) = has_first m.states h in oldest_window_lem m.states m.order k (sym (v.same k) ∙ e)

observe_new-IsValid :
    (m : WatermarkWindowManager) (key : WindowKey) (start : ℤ)
    → IsValid m
    → has key m.states ≡ false
    → IsValid (observe_new m key start).0
unfolding observe_new replace_window
observe_new-IsValid m key start v n = elim (Bool-cases (leb m.max_open_windows (length m.states))) [
  | inr room ↦ simp room (open_window-IsValid m key start v n (ground arith))
  | inl full ↦
      let (k, s, e, o) = full-IsOldest m v (ground (arith, v.positive)) in
      let (v', b) = close_window-IsValid m k v (v.same k ∙ o.member) in
      simp (full, e)
        (open_window-IsValid (close_window m k) key start v'
          (unfold close_window in ground (arith, has-remove key k m.states, n)) b)
]

set_window-IsValid :
    (m : WatermarkWindowManager) (key : WindowKey) (state start : ℤ)
    → IsValid m
    → lookup key m.states ≡ some state
    → IsValid (record m { states = insert key start m.states })
set_window-IsValid m key state start v e = record {
  positive = v.positive;
  same = λ k. ground (
    arith,
    has-insert k key start m.states,
    v.same k,
    window_key_eq_iff key k,
    (let h : has key m.states ≡ true = unfold has in rw (e, has) refl in h),
  );
  once = v.once;
  bounded = ground (arith, length-insert key start m.states, e, v.bounded);
}

observe_existing-IsValid :
    (m : WatermarkWindowManager) (key : WindowKey) (state start : ℤ)
    → IsValid m
    → lookup key m.states ≡ some state
    → IsValid (observe_existing m key state start).0
unfolding observe_existing
observe_existing-IsValid m key state start v e = elim (Bool-cases (ltb_ℤ start state)) [
  | inl late ↦ elim (Bool-cases (ltb_ℤ m.late_tolerance_ms (state -ℤ start))) [
    | inl far ↦ rw (late, far) v
    | inr near ↦ rw (late, near) v
  ]
  | inr on_time ↦ elim (Bool-cases (eq_ℤ start state)) [
    | inl same ↦ rw (on_time, same) v
    | inr later ↦ rw (on_time, later) (set_window-IsValid m key state start v e)
  ]
]

observe_window-IsValid :
    (m : WatermarkWindowManager) (key : WindowKey) (start : ℤ)
    → IsValid m
    → IsValid (observe_window m key start).0
unfolding observe_window
observe_window-IsValid m key start v = elim (Option-cases (lookup key m.states)) [
  | inl n ↦
      rw (n, observe_window) (observe_new-IsValid m key start v (unfold has in rw (n, has) refl))
  | inr (s, e) ↦ rw (e, observe_window) (observe_existing-IsValid m key s start v e)
]

-- `Observe` keeps the open windows within `maxOpenWindows`, and its map and its order about the same
-- keys, each once, whatever the event.
pub observe-IsValid :
    (m : WatermarkWindowManager) (key : WindowKey) (event_ts_ms window_duration_ms : ℤ)
    → IsValid m
    → IsValid (observe m key event_ts_ms window_duration_ms).0
unfolding observe refused
observe-IsValid m key event_ts_ms window_duration_ms v =
    refused-IsValid (check_event key event_ts_ms window_duration_ms)
  where
    windows : WatermarkWindowManager × WindowDecision
    windows =
        observe_window m (normalized_key key) (bucket_window_start event_ts_ms window_duration_ms)

    refused-IsValid : (r : Result (Unit {0})) → IsValid (refused m windows r).0
    refused-IsValid (ok u) =
        observe_window-IsValid m (normalized_key key)
          (bucket_window_start event_ts_ms window_duration_ms) v
    refused-IsValid (err p) = v

-- The window of `key` is open from `start`, those that `gone` tells are closed, and nothing else is
-- changed or reported.
pub record Opened (m : WatermarkWindowManager) (key : WindowKey) (start : ℤ)
    (gone : WindowKey → Bool) (m' : WatermarkWindowManager) (d : WindowDecision) : Type 0 where
  pub windows :
      (j : WindowKey)
      → lookup j m'.states
        ≡ (if window_key_eq key j then some start else if gone j then none else lookup j m.states)
  pub window_start : d.window_start ≡ start
  pub in_time : d.is_late ≡ false
  pub none_current : d.should_close_current ≡ false
  pub previous : d.previous_window_start ≡ pos 0
  pub bound : m'.max_open_windows ≡ m.max_open_windows
  pub tolerance : m'.late_tolerance_ms ≡ m.late_tolerance_ms

-- The two cases of an event with no open window.
pub data Closes (m : WatermarkWindowManager) (key : WindowKey) (start : ℤ)
    (m' : WatermarkWindowManager) (d : WindowDecision) : Type 0 where
  room :
      length m.states < m.max_open_windows
      → d.forced_close ≡ none
      → Opened m key start (λ j. false) m' d
      → Closes m key start m' d
  full :
      m.max_open_windows ≤ length m.states
      → (k : WindowKey) (s : ℤ) → d.forced_close ≡ some (k, s)
      → IsOldest m.states m.order k s
      → Opened m key start (window_key_eq k) m' d
      → Closes m key start m' d

Opened-open_window :
    (m : WatermarkWindowManager) (key : WindowKey) (start : ℤ)
    → Opened m key start (λ j. false) (open_window m key start) (window_decision start)
unfolding open_window window_decision
Opened-open_window m key start = record {
  windows = λ j. lookup-insert key j start m.states;
  window_start = refl;
  in_time = refl;
  none_current = refl;
  previous = refl;
  bound = refl;
  tolerance = refl;
}

Opened-replace_window :
    (m : WatermarkWindowManager) (key : WindowKey) (start : ℤ) (k : WindowKey) (s : ℤ)
    → Opened m key start
        (window_key_eq k)
        (open_window (close_window m k) key start)
        (record (window_decision start) { forced_close = some (k, s) })
unfolding open_window close_window window_decision
Opened-replace_window m key start k s = record {
  windows =
      λ j. rw (lookup-insert key j start (remove k m.states), lookup-remove k j m.states) refl;
  window_start = refl;
  in_time = refl;
  none_current = refl;
  previous = refl;
  bound = refl;
  tolerance = refl;
}

-- In a valid manager an event with no open window opens its window and reports only that where there
-- is room; in a full one it also closes an open window with the earliest start and reports its key and
-- start. No other window is opened, closed or moved, and the settings stay.
pub observe_new-Closes :
    (m : WatermarkWindowManager) (key : WindowKey) (start : ℤ)
    → IsValid m
    → let (m', d) = observe_new m key start in Closes m key start m' d
unfolding observe_new replace_window window_decision
observe_new-Closes m key start v = elim (Bool-cases (leb m.max_open_windows (length m.states))) [
  | inr less ↦ rw (observe_new, less) (room (ground arith) refl (Opened-open_window m key start))
  | inl more ↦
      let (k, s, e, o) = full-IsOldest m v (ground (arith, v.positive)) in
      rw (observe_new, more, e)
        (full (ground arith) k s refl o (Opened-replace_window m key start k s))
]

kept_window :
    (m : WatermarkWindowManager) (key j : WindowKey) (state : ℤ)
    → lookup key m.states ≡ some state
    → lookup j m.states ≡ (if window_key_eq key j then some state else lookup j m.states)
kept_window m key j state e = elim (Bool-cases (window_key_eq key j)) [
  | inr apart ↦ rw apart refl
  | inl same ↦
      rw same
        (ap (λ (k : WindowKey). lookup k m.states) (sym ((window_key_eq_iff key j).0 same)) ∙ e)
]

-- For a key with an open window that starts at `state`, the event is late exactly if its window
-- starts before, and closes the open window, which is then reported with its start, exactly if it
-- starts after; the window then open starts at the later of the two: `lateToleranceMs` plays no part.
-- The windows of other keys, the order and the settings stay.
pub observe_existing_lem :
    (m : WatermarkWindowManager) (key j : WindowKey) (state start : ℤ)
    → lookup key m.states ≡ some state
    → let (m', d) = observe_existing m key state start in
      (d.window_start ≡ start)
      × (d.is_late ≡ ltb_ℤ start state)
      × (d.should_close_current ≡ ltb_ℤ state start)
      × (d.previous_window_start ≡ (if ltb_ℤ state start then state else pos 0))
      × (d.forced_close ≡ none)
      × (lookup j m'.states ≡ (
          if window_key_eq key j
          then some (if ltb_ℤ state start then start else state)
          else lookup j m.states))
      × (record m' { states = m.states } ≡ m)
unfolding observe_existing window_decision
observe_existing_lem m key j state start e = elim (Bool-cases (ltb_ℤ start state)) [
  | inl late ↦
      let early : ltb_ℤ state start ≡ false = ground arith in
      elim (Bool-cases (ltb_ℤ m.late_tolerance_ms (state -ℤ start))) [
        | inl far ↦
            rw (late, far, early) (refl, refl, refl, refl, refl, kept_window m key j state e, refl)
        | inr near ↦
            rw (late, near, early) (refl, refl, refl, refl, refl, kept_window m key j state e, refl)
      ]
  | inr on_time ↦ elim (Bool-cases (eq_ℤ start state)) [
    | inl same ↦
        let level : ltb_ℤ state start ≡ false = ground arith in
        rw (on_time, same, level) (refl, refl, refl, refl, refl, kept_window m key j state e, refl)
    | inr later ↦
        let above : ltb_ℤ state start ≡ true = ground arith in
        rw (on_time, later, above)
          (refl, refl, refl, refl, refl, lookup-insert key j start m.states, refl)
  ]
]

pub empty-IsValid :
    (max_open_windows : ℕ) (late_tolerance_ms : ℤ)
    → 0 < max_open_windows
    → IsValid record {
      max_open_windows = max_open_windows;
      late_tolerance_ms = late_tolerance_ms;
      states = [];
      order = [];
    }
unfolding has elem
empty-IsValid max_open_windows late_tolerance_ms h = record {
  positive = h;
  same = λ k. unfold lookup in refl;
  once = tt;
  bounded = omega arith;
}
