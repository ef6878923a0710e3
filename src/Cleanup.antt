-- ===== src/Cleanup.antt =====
-- The retention job of backend/app/repositories/cleanup.py.
pub mod Batch
pub mod Oldest
pub mod Retention
pub mod Past
pub mod Cascade
pub mod Backlog
mod Tests
