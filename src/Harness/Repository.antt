-- ===== src/Harness/Repository.antt =====
-- packages/harness/persistence/repository.py: `MemoryHarnessRepository`. Each method runs under the
-- repository's lock, so a method is one step on the tables.
mod Tests
pub mod Records
pub mod Tasks
pub mod Leasing
pub mod Requests
pub mod Changes
pub mod Invariant
pub mod Life
pub mod Grants
pub mod Recovery
pub mod Outbox
pub mod Delivery
mod Tables
pub mod EventLog
mod Heartbeats
pub mod Events
