-- ===== src/Presence.antt =====
-- `PresenceManager` of backend/app/presence.py: admitted sockets, their outbound queues, and the
-- signaling budgets. Each lock section is one atomic function of the manager's state; what runs
-- between two sections (closing a socket, waiting for a task) reads and writes none of it.
pub mod State
pub mod Connections
pub mod Outbound
pub mod Signaling
pub mod Sections
pub mod Swept
pub mod Replacement
pub mod Untouched
pub mod Limits
pub mod Budget
pub mod Queues
mod Tests
