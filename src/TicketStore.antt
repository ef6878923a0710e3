-- ===== src/TicketStore.antt =====
-- The in-memory ticket repository of backend/app/repositories/websocket_tickets.py.
pub mod Memory
pub mod Races
mod Tests
