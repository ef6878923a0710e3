-- ===== src/Presence/Queues.antt =====
-- The outbound queues, over any interleaving of the manager's sections.
pub mod Limits
pub mod Kept
pub mod Steps
