-- ===== src/Streaming.antt =====
-- internal/adapters/streaming: the client of the video service and the synchronisation of the
-- catalogue with its library.
pub mod Client
pub mod Sync
pub mod Provider
pub mod Swallowed
