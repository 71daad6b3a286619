-- ===== src/Db.antt =====
-- internal/users/db: the SQLite tables, the statements over them and the operations of `Manager`.
pub mod Tables
pub mod Users
pub mod Groups
pub mod Memberships
pub mod Update
pub mod Effects
pub mod Invariant
pub mod WellFormed
pub mod Stored
pub mod Examples
