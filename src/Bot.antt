-- ===== src/Bot.antt =====
-- The bot: bot/middlewares.py.
pub mod Throttling
mod Tests
