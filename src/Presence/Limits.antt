-- ===== src/Presence/Limits.antt =====
-- The limits on registered sockets, over any interleaving of the manager's sections.
pub mod Rows
pub mod Kept
pub mod Sweep
pub mod Others
pub mod Steps
