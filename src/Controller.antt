-- ===== src/Controller.antt =====
-- internal/controller
pub mod Tracker
pub mod Scaler
pub mod System
pub mod Labels
pub mod Lifecycle
mod Tests
