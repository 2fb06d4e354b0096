-- ===== src/Delivery/RateLimiter/Tests.antt =====
-- A limiter of two tokens, refilled by one a second.
use stream_analytics.Base.{◌≡◌, true, arith}
use stream_analytics.Delivery.RateLimiter.{RateLimiter, allow}
use stream_analytics.Delivery.RateLimiter.Bounds.{IsValid, allow_after_second}

abbrev limiter : RateLimiter
limiter = record { tokens = 2; max_tokens = 2; refill_rate = 1; last_refill = 0 }

limiter-IsValid : IsValid limiter
limiter-IsValid = record { capacity = omega arith; rate = omega arith; bounded = omega arith }

allow_after_second_example : (allow limiter 1000000000).1 ≡ true
allow_after_second_example =
    allow_after_second limiter 1000000000 limiter-IsValid (omega arith) (omega arith)
