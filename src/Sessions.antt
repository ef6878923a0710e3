-- ===== src/Sessions.antt =====
-- The session service of backend/app/sessions.py over any repository, and the in-memory repository.
pub mod Service
pub mod Prepared
pub mod Rotation
pub mod Opened
pub mod Memory
pub mod Refinement
mod Tests
