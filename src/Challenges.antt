-- ===== src/Challenges.antt =====
-- One-time device challenges: backend/app/repositories/challenges.py.
pub mod Statements
pub mod Spent
pub mod Once
pub mod Always
mod Tests
