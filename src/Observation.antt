-- ===== src/Observation.antt =====
-- The recording of events and the waits for them: src/observation.rs.
pub mod Record
pub mod Validate
pub mod Match
pub mod Store
pub mod Page
pub mod Watch
pub mod Wait
