-- ===== src/Workflow.antt =====
-- packages/workflow: the bounded repair rounds and the final bundle.
pub mod FinalAggregator
pub mod Repair
