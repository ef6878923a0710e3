-- ===== src/Transfers.antt =====
-- Transfer requests: the status words and their table of transitions, the two repositories
-- (backend/app/repositories/transfers.py) and the service over them (backend/app/transfers.py).
pub mod Status
pub mod Memory
pub mod Operations
pub mod Lifecycle
pub mod Failing
pub mod Steps
pub mod History
pub mod Sql
pub mod Refinement
pub mod Port
pub mod MemoryPort
pub mod Loads
pub mod Service
pub mod Capacity
pub mod Authority
mod Tests
