-- ===== src/Telegram.antt =====
-- internal/telegram: who may command the bot, what a command does, and how updates are taken.
pub mod Poller
pub mod Commands
pub mod Messages
pub mod Pieces
pub mod Handled
pub mod Obeyed
pub mod Relinked
pub mod Updates
mod Tests
