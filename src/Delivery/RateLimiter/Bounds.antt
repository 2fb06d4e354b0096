-- ===== src/Delivery/RateLimiter/Bounds.antt =====
-- How many requests the limiter lets through.
use native.Mathlib.Nat.{mul-le-mul_right}
use stream_analytics.Base.{
  ℕ, ◌+◌, ◌-◌, ◌*◌, ◌/◌, ◌%◌, ◌^◌, ◌≤◌, ◌<◌, ◌≡◌, Bool, true, false, List, [], ◌∷◌, if◌then◌else◌,
  arith,
}
use stream_analytics.Base.Int.{ℤ}
use stream_analytics.Delivery.RateLimiter.{
  RateLimiter, second, new_rate_limiter, is_positive, min_int, refill_by, refill, take_token, allow,
  at_least_one,
}

pub record IsValid (r : RateLimiter) : Type 0 where
  pub capacity : 0 < r.max_tokens
  pub rate : 0 < r.refill_rate
  pub bounded : r.tokens ≤ r.max_tokens

pub new_rate_limiter-IsValid :
    (max_tokens refill_rate : ℤ) (now : ℕ) → IsValid (new_rate_limiter max_tokens refill_rate now)
unfolding new_rate_limiter at_least_one
new_rate_limiter-IsValid max_tokens refill_rate now = record {
  capacity = ground arith;
  rate = ground arith;
  bounded = ground arith;
}

-- The limiter after requests at the given times, and how many it let through.
unfoldable pub run : RateLimiter → List ℕ → RateLimiter × ℕ
run r [] = (r, 0)
run r (now ∷ times) =
    let (r', allowed) = allow r now in
    let (r'', count) = run r' times in (r'', if allowed then count + 1 else count)

quotient_add : (a b : ℕ) → a / second + b / second ≤ (a + b) / second
quotient_add a b = omega arith

-- Tokens that a limiter may have gained between two readings.
abbrev pub gained : RateLimiter → RateLimiter → ℕ
gained r r' = (r'.last_refill - r.last_refill) / second * r.refill_rate

abbrev as_count : Bool → ℕ
as_count true = 1
as_count false = 0

refilled :
    (r : RateLimiter) (now n : ℕ)
    → IsValid r
    → 0 < n
    → r.tokens + n < 2 ^ 63
    → is_positive (refill_by r now (n % 2 ^ 64)).tokens ≡ true
unfolding refill_by is_positive min_int
refilled r now n v h small =
    let word : n % 2 ^ 64 ≡ n = omega arith in
    let sum : (r.tokens + n) % 2 ^ 64 ≡ r.tokens + n = omega arith in
    rw (refill_by, word, is_positive, sum) (ground (arith, v.capacity, small, h))

take_token-passes : (r : RateLimiter) → is_positive r.tokens ≡ true → (take_token r).1 ≡ true
unfolding is_positive take_token
take_token-passes r h = ground (arith, h)

-- A limiter with a positive capacity and rate, and no more tokens than its capacity, lets a request
-- through that comes a second or more after the last refill, if its tokens and the tokens to add
-- together are below 2 ^ 63, so that no int wraps.
pub allow_after_second :
    (r : RateLimiter) (now : ℕ)
    → IsValid r
    → r.last_refill + second ≤ now
    → r.tokens + (now - r.last_refill) / second * r.refill_rate < 2 ^ 63
    → (allow r now).1 ≡ true
unfolding allow refill
allow_after_second r now v h small =
    let whole : 1 ≤ (now - r.last_refill) / second = omega arith in
    let m = mul-le-mul_right r.refill_rate whole in
    let added : 0 < (now - r.last_refill) / second * r.refill_rate = omega (arith, m, v.rate) in
    let filled : is_positive (refill r now).tokens ≡ true =
      refilled r now ((now - r.last_refill) / second * r.refill_rate) v added small in
    take_token-passes (refill r now) filled
