-- ===== src/Management.antt =====
-- internal/management
pub mod JobStore
pub mod Provisional
pub mod History
mod Tests
pub mod Host
pub mod Service
