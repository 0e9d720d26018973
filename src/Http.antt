-- ===== src/Http.antt =====
-- internal/adapters/httpapi: the HTTP interface.
pub mod Base64
pub mod Replies
pub mod Server
