-- ===== src/Ring/Index.antt =====
-- Positions less than a capacity apart fall into distinct slots.
use stream_analytics.Base.{ℕ, ◌+◌, ◌%◌, ◌<◌, ◌≢◌, arith}

pub mod_ne : (a b c : ℕ) → a < b → b < a + c → a % c ≢ b % c
mod_ne a b c p q = grind arith
