-- ===== src/Threads/Front.antt =====
-- The front ends as threads: the updates of the bot, the requests of the HTTP interface, and the
-- writes of the catalogue at the start and by the synchronisation.
pub mod Checkout
pub mod Bot
pub mod Server
pub mod Sync
