-- ===== src/Storage.antt =====
-- internal/storage
pub mod Jobs
pub mod Console
pub mod Samples
pub mod Retention
pub mod Revisions
pub mod Transactions
