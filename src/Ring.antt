-- ===== src/Ring.antt =====
-- The circular buffer that internal/actors/delivery/runtime/delivery_ring.go (`deliveryRing`) and
-- internal/actors/marketdata/runtime/backpressure_queue.go (`wsQueue`) both spell out: a slice of
-- fixed capacity, the index of the oldest element and the number of live ones. `zero` is the value
-- that a freed slot is reset to. Go's `int` indices stay far below 2^63 and do not wrap.
pub mod Index
pub mod Window
pub mod Contents
pub mod Removal
mod Tests
use stream_analytics.Base.{
  ℕ, zero, suc, ◌+◌, ◌-◌, ◌%◌, ◌≤◌, ◌<◌, ◌≡◌, List, Bool, length, get_or, set, replicate, ◌==◌,
  if◌then◌else◌,
}

pub record Ring (A : Type 0) : Type 0 where
  pub buf : List A
  pub head : ℕ
  pub count : ℕ
  pub cap : ℕ

module _ {A : Type 0} (nil : A) where
  unfoldable pub init : ℕ → Ring A
  init capacity = record { buf = replicate capacity nil; head = 0; count = 0; cap = capacity }

  unfoldable pub push_back : Ring A → A → Ring A
  push_back r evt = record r {
    buf = set r.buf ((r.head + r.count) % r.cap) evt;
    count = r.count + 1;
  }

  -- The three statements that free the head slot.
  unfoldable pub advance : Ring A → Ring A
  advance r = record r {
    buf = set r.buf r.head nil;
    head = (r.head + 1) % r.cap;
    count = r.count - 1;
  }

  unfoldable pub pop_front : Ring A → A × Bool × Ring A
  unfolding advance
  pop_front r =
      if r.count == 0 then (nil, Bool.false, r) else (get_or r.buf r.head nil, Bool.true, advance r)

  unfoldable pub drop_front : Ring A → Ring A
  unfolding advance
  drop_front r = if r.count == 0 then r else advance r

  unfoldable pub at : Ring A → ℕ → A
  at r i = get_or r.buf ((r.head + i) % r.cap) nil

  -- The shifting loop, with `rounds` rounds left.
  unfoldable pub shift : List A → ℕ → ℕ → ℕ → ℕ → List A
  shift buf head cap j zero = buf
  shift buf head cap j (suc rounds) =
      shift (set buf ((head + j) % cap) (get_or buf ((head + j + 1) % cap) nil)) head cap (j + 1)
        rounds

  -- The branch for an index other than 0: shift, clear the old tail slot, count down.
  unfoldable pub close_gap : Ring A → ℕ → Ring A
  unfolding shift
  close_gap r i = record r {
    buf = set (shift r.buf r.head r.cap i (r.count - 1 - i)) ((r.head + r.count - 1) % r.cap) nil;
    count = r.count - 1;
  }

  unfoldable pub remove_at : Ring A → ℕ → Ring A
  unfolding drop_front close_gap
  remove_at r i = if i == 0 then drop_front r else close_gap r i

-- What the constructors build, and every operation keeps.
pub record IsValid {A : Type 0} (r : Ring A) : Type 0 where
  pub positive : 0 < r.cap
  pub sized : length r.buf ≡ r.cap
  pub headed : r.head < r.cap
  pub counted : r.count ≤ r.cap
