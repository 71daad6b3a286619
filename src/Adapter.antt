-- ===== src/Adapter.antt =====
-- pam/internal/adapter: the client of the PAM module, as the models of its event loop.
pub mod Messages
pub mod Tracker
pub mod Widgets
pub mod NewPassword
pub mod Forms
pub mod Authentication
pub mod UserSelection
pub mod BrokerSelection
pub mod AuthModeSelection
pub mod Gdm
pub mod Conversation
pub mod Native
pub mod Commands
pub mod Loop
pub mod Model
mod Examples
