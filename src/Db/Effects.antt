-- ===== src/Db/Effects.antt =====
-- What a successful statement of internal/users/db has checked, and the tables that it leaves.
pub mod Users
pub mod Groups
pub mod Memberships
pub mod Update
