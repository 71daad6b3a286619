-- ===== src/TempEntries.antt =====
-- internal/users/tempentries: users and groups that are kept in memory only, while they log in.
pub mod Attempts
pub mod Indexes
pub mod Users
pub mod PreAuth
pub mod Groups
pub mod Records
pub mod Returns
pub mod Examples
