-- ===== src/Identity/Kept.antt =====
-- Every statement of the identity repositories makes devices and sessions follow their earlier selves.
pub mod Sessions
pub mod Devices
pub mod Others
