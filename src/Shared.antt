-- ===== src/Shared.antt =====
-- Data structures that several parts of the program share: internal/shared.
pub mod BoundedMap
