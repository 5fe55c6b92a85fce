-- ===== src/Service.antt =====
-- The command services of the three aggregates.
pub mod User
pub mod Product
pub mod Order
