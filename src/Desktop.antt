-- ===== src/Desktop.antt =====
-- The desktop tools: src/desktop/observation.rs.
pub mod Region
pub mod Compare
pub mod Frames
