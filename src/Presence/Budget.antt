-- ===== src/Presence/Budget.antt =====
-- The signaling budgets, over any interleaving of the manager's sections.
pub mod Usage
pub mod Kept
pub mod Frame
pub mod Granted
pub mod Steps
