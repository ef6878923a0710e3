-- ===== src/DeviceAuth.antt =====
-- `DeviceAuthService` and `RegistrationChallengeStore` of backend/app/device_auth.py, over the SQL
-- repositories.
pub mod Registrations
pub mod State
pub mod Opening
pub mod LinkingOtp
pub mod Login
pub mod Outcome
pub mod Authentic
pub mod Issued
pub mod Pending
pub mod Enrollment
pub mod Enrolled
mod Tests
