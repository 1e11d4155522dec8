-- ===== src/Telegram.antt =====
-- src/adapter/outbound/notifier/telegram: the remote control of the running application.
pub mod Text
pub mod Command
pub mod RoundTrip
pub mod Control
pub mod Dispatch
pub mod Authority
