-- ===== src/Storage/Tokens.antt =====
-- redis/token_store.go. The Redis client is no part of the repository: its commands are a
-- parameter, and what they do to the server's keys is open.
use streaming_bot.Prelude.{Text, text, ◌++◌, Option, none, some}
use streaming_bot.Prelude.Int.{ℤ}
use streaming_bot.Exec.{Exec, pure, ◌>>=◌}
use streaming_bot.World.{Cache, Io, redis}

-- `Set`, `Get` and `Del` of the client; `none` is `goredis.Nil`.
pub record RedisClient : Type 0 where
  pub set : Text → Text → ℤ → Exec Cache Unit
  pub get : Text → Exec Cache (Option Text)
  pub del : Text → Exec Cache Unit

unfoldable pub key : Text → Text
key token_hash = text "access:token_hash:" ++ token_hash

module _ (client : RedisClient) where
  unfoldable pub put : Text → Text → ℤ → Io Unit
  put token_hash purchase_id ttl = redis (client.set (key token_hash) purchase_id ttl)

  abbrev value_or_empty : Option Text → Text
  value_or_empty none = text ""
  value_or_empty (some v) = v

  unfoldable pub get : Text → Io Text
  get token_hash = do v ← redis (client.get (key token_hash)); pure (value_or_empty v)

  unfoldable pub delete : Text → Io Unit
  delete token_hash = redis (client.del (key token_hash))
