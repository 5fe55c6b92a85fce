-- ===== src/Worker.antt =====
-- internal/worker: the three jobs, one pass of each.
pub mod Outbox
pub mod Builder
pub mod Warmer
pub mod Loops
pub mod Life
