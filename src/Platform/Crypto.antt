-- ===== src/Platform/Crypto.antt =====
-- platform/crypto/token.go. The digest is a parameter: `sum256 s` are the bytes of SHA-256 of `s`.
use streaming_bot.Prelude.{ℕ, Text, List}
use streaming_bot.Exec.{pure, ◌>>=◌}
use streaming_bot.World.{Io, rand_read}
use streaming_bot.Platform.Hex.{encode_to_string}

module _ (sum256 : Text → List ℕ) where
  -- `sha256.Sum256`, then `hex.EncodeToString`
  unfoldable pub token_digest : Text → Text
  token_digest raw = encode_to_string (sum256 raw)

  -- The raw token and its hash.
  unfoldable pub generate : Io (Text × Text)
  generate = do buf ← rand_read 32; let raw = encode_to_string buf; pure (raw, token_digest raw)
