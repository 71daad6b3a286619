-- ===== src/Db/Stored.antt =====
-- What UpdateUserEntry of internal/users/db/update.go leaves in the tables where it succeeds.
pub mod Rows
pub mod Members
pub mod LocalMembers
pub mod Entry
