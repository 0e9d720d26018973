-- ===== src/Platform.antt =====
-- internal/platform: tokens, identifiers, the configuration, and the encodings they use.
pub mod Hex
pub mod Atoi
pub mod Strings
pub mod Url
pub mod Config
pub mod Json
pub mod Crypto
pub mod Idgen
