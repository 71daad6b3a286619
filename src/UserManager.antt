-- ===== src/UserManager.antt =====
-- internal/users/manager.go and defs.go.
pub mod State
pub mod Groups
pub mod Storing
pub mod Update
pub mod Reads
mod Steps
pub mod Updates
pub mod Returns
pub mod Examples
