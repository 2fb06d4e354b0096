-- ===== src/Delivery/RateLimiter.antt =====
-- internal/actors/delivery/runtime/rate_limiter.go: the token bucket of a session's read path. Clock
-- readings are nanoseconds; a reading before the last one gives no refill, as in the code. The
-- elapsed seconds are rounded down: the float64 in between is exact for some 48 days. `tokens` is the
-- 64-bit word of a Go int, which is negative from 2 ^ 63; the maximum and the rate are positive ints.
pub mod Bounds
mod Tests
use stream_analytics.Base.{
  ℕ, ◌+◌, ◌-◌, ◌*◌, ◌/◌, ◌%◌, ◌^◌, Bool, true, false, ◌&&◌, ◌||◌, List, [], ◌∷◌, ltb, leb, ◌==◌,
  if◌then◌else◌,
}
use stream_analytics.Base.Int.{ℤ, pos, leb_ℤ, pos_part}

pub record RateLimiter : Type 0 where
  pub tokens : ℕ
  pub max_tokens : ℕ
  pub refill_rate : ℕ
  pub last_refill : ℕ

abbrev pub second : ℕ
second = 1000000000

at_least_one : ℤ → ℕ
at_least_one n = if leb_ℤ n (pos 0) then 1 else pos_part n

unfoldable pub new_rate_limiter : ℤ → ℤ → ℕ → RateLimiter
unfolding at_least_one
new_rate_limiter max_tokens refill_rate now = record {
  tokens = at_least_one max_tokens;
  max_tokens = at_least_one max_tokens;
  refill_rate = at_least_one refill_rate;
  last_refill = now;
}

-- `n > 0` for the word of an int.
unfoldable pub is_positive : ℕ → Bool
is_positive n = ltb 0 n && ltb n (2 ^ 63)

-- `minInt` of the word of an int and the maximum.
unfoldable pub min_int : ℕ → ℕ → ℕ
min_int sum max_tokens = if ltb sum (2 ^ 63) && leb max_tokens sum then max_tokens else sum

-- The refill of `Allow`, by the word of the product.
unfoldable pub refill_by : RateLimiter → ℕ → ℕ → RateLimiter
refill_by r now added =
    if is_positive added
    then record r { tokens = min_int ((r.tokens + added) % 2 ^ 64) r.max_tokens; last_refill = now }
    else r

unfoldable pub refill : RateLimiter → ℕ → RateLimiter
refill r now = refill_by r now ((now - r.last_refill) / second * r.refill_rate % 2 ^ 64)

-- What follows the refill.
unfoldable pub take_token : RateLimiter → RateLimiter × Bool
take_token r =
    if r.tokens == 0 || leb (2 ^ 63) r.tokens
    then (r, false)
    else (record r { tokens = r.tokens - 1 }, true)

-- `Allow` on a limiter that is there.
unfoldable pub allow : RateLimiter → ℕ → RateLimiter × Bool
allow r now = take_token (refill r now)
