-- ===== src/Identity.antt =====
-- Accounts, devices, sessions and WebSocket tickets: the SQL repositories of
-- backend/app/repositories/accounts.py, devices.py, sessions.py and websocket_tickets.py, as functions of
-- one database.
pub mod Database
pub mod Accounts
pub mod Sessions
pub mod Devices
pub mod Tickets
pub mod Steps
pub mod Follows
pub mod Kept
pub mod History
pub mod Revoked
pub mod Ended
pub mod Logout
pub mod Spent
pub mod Untouched
pub mod Once
pub mod Found
mod Tests
