-- ===== src/Delivery.antt =====
-- Delivery of events to websocket sessions: internal/actors/delivery/runtime.
pub mod SeqPolicy
pub mod Router
pub mod Session
pub mod Subject
pub mod Subscriptions
pub mod Routing
pub mod FanOut
pub mod RateLimiter
