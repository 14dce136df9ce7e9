-- ===== src/Agents.antt =====
-- packages/agents: what the agents hand over.
pub mod Artifacts
