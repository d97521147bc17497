-- ===== src/Tests.antt =====
-- Runs of the definitions at concrete inputs.
pub mod Data
pub mod Jobs
pub mod Points
pub mod Monitored
pub mod Rotation
pub mod Web
pub mod Pages
pub mod Network
