-- ===== src/LocalEntries.antt =====
-- internal/users/localentries: the passwd and group databases of the system.
pub mod Entries
pub mod Text
pub mod Groups
mod Examples
