-- ===== src/RateLimits.antt =====
-- Rate limits: the buckets of backend/app/repositories/rate_limits.py.
pub mod Buckets
pub mod Charges
pub mod Windows
mod Tests
