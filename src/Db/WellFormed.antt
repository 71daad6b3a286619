-- ===== src/Db/WellFormed.antt =====
-- The operations of internal/users/db and the invariant of the tables that sql/create_schema.sql declares.
pub mod Users
pub mod Groups
pub mod Memberships
pub mod Update
pub mod Calls
