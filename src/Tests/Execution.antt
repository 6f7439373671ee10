-- ===== src/Tests/Execution.antt =====
-- src/execution.rs and src/execution/: concrete data, and the theorems applied to it.
mod Inputs
mod Quotes
mod Encoding
mod Buffers
mod Entries
mod Registries
mod Restores
