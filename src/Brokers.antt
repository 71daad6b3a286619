-- ===== src/Brokers.antt =====
-- internal/brokers: the brokers' manager, the brokers, and the UI layouts they agree on.
pub mod Layouts
pub mod Validators
pub mod Broker
pub mod Manager
pub mod Examples
