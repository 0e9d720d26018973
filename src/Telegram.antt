-- ===== src/Telegram.antt =====
-- internal/adapters/telegram/bot.go: the bot that people write to.
pub mod Api
pub mod Checkout
pub mod Catalogue
pub mod Bot
pub mod Polling
