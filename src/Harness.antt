-- ===== src/Harness.antt =====
-- packages/harness: the Blackboard, the task repository, the scheduler, the tool gateway and the
-- loop of the agents.
pub mod ModelGateway
pub mod ToolGateway
pub mod Agent
pub mod Blackboard
pub mod Repository
pub mod Scheduler
