-- ===== src/Storage.antt =====
-- internal/adapters/storage: the Postgres repositories and the Redis token store. A statement's
-- text is in the source, and so are the constraints (schema.go); its meaning is that of SQL.
pub mod Purchases
pub mod Contents
pub mod Grants
pub mod Reviews
pub mod Payments
pub mod Outbox
pub mod Users
pub mod Tokens
