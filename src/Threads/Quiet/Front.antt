-- ===== src/Threads/Quiet/Front.antt =====
-- The front ends beside other threads.
pub mod Checkout
pub mod Bot
pub mod Server
pub mod Sync
