-- ===== src/CloudAgent.antt =====
-- internal/cloudagent
pub mod Agent
pub mod Commands
pub mod Sets
pub mod Starts
pub mod Records
pub mod Backoff
mod Tests
