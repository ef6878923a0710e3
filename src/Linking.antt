-- ===== src/Linking.antt =====
-- One-time device-linking codes: backend/app/repositories/device_linking_otps.py.
pub mod Codes
pub mod Uses
pub mod Writes
pub mod Single
mod Tests
