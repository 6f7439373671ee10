-- ===== src/Workflow.antt =====
-- Workflows of declared steps: src/workflow.rs.
pub mod Execute
pub mod Bindings
pub mod Validate
pub mod State
pub mod Snapshot
