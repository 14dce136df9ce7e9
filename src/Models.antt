-- ===== src/Models.antt =====
-- packages/models: the accounting of model and tool usage, and the routing of requests.
pub mod Ledger
pub mod Schema
pub mod Routing
