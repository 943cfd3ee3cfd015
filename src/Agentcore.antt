-- ===== src/Agentcore.antt =====
-- The parts of agentcore that the other packages build on.
pub mod Errors
pub mod Step
pub mod Retry
