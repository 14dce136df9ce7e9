-- ===== src/Harness/Scheduler.antt =====
-- packages/harness/scheduler.py: `TaskNode`, `TaskDAG` and `DagScheduler`. What happens outside of
-- the scheduler, the ends of operations and the cancellations, is an argument.
pub mod Graph
pub mod Nodes
pub mod Rounds
mod Tests
