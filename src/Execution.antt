-- ===== src/Execution.antt =====
-- The execution manager: src/execution.rs and src/execution/.
pub mod Input
pub mod Quote
pub mod Utf8
pub mod Base64
pub mod Buffer
pub mod Record
pub mod Validate
pub mod Entry
pub mod Registry
pub mod Start
pub mod Checkpoint
