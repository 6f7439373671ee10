-- ===== src/Tests.antt =====
-- The theorems applied at concrete inputs.
mod Execution
mod Observation
mod Workflow
mod Desktop
