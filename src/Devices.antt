-- ===== src/Devices.antt =====
-- The in-memory device repository of backend/app/repositories/devices.py, against the SQL one.
pub mod Memory
pub mod Refinement
mod Tests
