-- ===== src/Wiring.antt =====
-- cmd/bot/main.go: how the program is put together from its configuration. Logging and the
-- connections are left out; the goroutines are those of Threads/Pool.
pub mod Main
pub mod Starting
pub mod Restarts
pub mod Production
use streaming_bot.Prelude.{
  ℕ, Text, text, text_eq, List, [], ◌∷◌, Option, none, some, Bool, true, false, not, ◌&&◌, ◌||◌,
  if◌then◌else◌,
}
use streaming_bot.Prelude.Int.{pos, ltb_ℤ}
use streaming_bot.Exec.{Result, ok, err, attempt, ignore, ◌>>=◌, ◌>>◌, pure}
use streaming_bot.World.{World, Io}
use streaming_bot.Storage.Contents
use streaming_bot.Storage.Tokens.{RedisClient}
use streaming_bot.Platform.Config.{Config}
use streaming_bot.App.IssueAccess.{Handler}
use streaming_bot.Jobs
use streaming_bot.Jobs.{Signal, Loop}
use streaming_bot.Streaming.Client.{Client, BunnyApi, new_bunny_client}
use streaming_bot.Streaming.Sync.{Synced, sync_library_content}
use streaming_bot.Streaming.Provider.{bunny}
use streaming_bot.Telegram.Api.{Bot, new_bot}
use streaming_bot.Http.Server.{Server, Decoder}

-- What is no part of the repository: the hash, the video service, the cache's client, the collation
-- of the database, the JSON decoder, and how the connections end: `Open`, `NewTokenStore`, `Ping`
-- and `NewBotAPI`.
pub record Services : Type 0 where
  pub sum256 : Text → List ℕ
  pub api : BunnyApi
  pub cache : RedisClient
  pub collate : Text → Text → Bool
  pub decoder : Decoder
  pub opened : Result (Unit {0})
  pub store_made : Result (Unit {0})
  pub pinged : Result (Unit {0})
  pub connected : Result (Unit {0})

abbrev pub has_library : Config → Bool
has_library cfg = not (text_eq cfg.bunny_library_id []) && not (text_eq cfg.bunny_api_key [])

abbrev pub is_production : Config → Bool
is_production cfg =
    text_eq cfg.environment (text "production") || text_eq cfg.environment (text "prod")

unfoldable pub bunny_client : Config → Client
bunny_client cfg =
    new_bunny_client cfg.bunny_library_id cfg.bunny_api_key cfg.bunny_api_base_url
      cfg.bunny_embed_base_url cfg.bunny_token_auth_key

-- Whether the program goes on: a failure ends it in production alone.
abbrev pub after_sync : Config → Option Synced → Option Bool
after_sync cfg none = none
after_sync cfg (some s) = some (elim s.failure [ none ↦ true | some _ ↦ not (is_production cfg) ])

abbrev pub after_seed : Result (Unit {0}) → Option Bool
after_seed (ok _) = some true
after_seed (err _) = some false

-- The first synchronisation, or the demo content; `none` is out of fuel.
unfoldable pub fill_catalogue : Services → Config → ℕ → Io (Option Bool)
fill_catalogue s cfg fuel =
    if has_library cfg
    then (sync_library_content s.api (bunny_client cfg) fuel cfg.bunny_default_price >>= λ res.
        pure (after_sync cfg res))
    else attempt Contents.ensure_demo_content >>= λ res. pure (after_seed res)

-- The bot: the program ends, goes on without, or goes on with it.
pub data Polling : Type 0 where
  fatal : Polling
  disabled : Polling
  enabled : Bot → Polling

abbrev pub after_init : Config → Result Bot → Polling
after_init cfg (ok b) = enabled b
after_init cfg (err _) = if is_production cfg then fatal else disabled

unfoldable pub polling : Services → Config → Polling
polling s cfg =
    if cfg.telegram_polling
    then after_init cfg (new_bot s.connected s.collate cfg.telegram_poll_timeout cfg.webhook_secret)
    else disabled

abbrev pub is_enabled : Polling → Bool
is_enabled (enabled b) = true
is_enabled disabled = false
is_enabled fatal = false

-- `24 * time.Hour`, in microseconds, and three attempts
unfoldable pub issue_access_uc : Services → Config → Polling → Handler
issue_access_uc s cfg bot = record {
  provider = bunny s.api (bunny_client cfg) s.sum256;
  cache = s.cache;
  sum256 = s.sum256;
  has_bot = is_enabled bot;
  ttl = 86400000000;
  max_retries = pos 3;
}

unfoldable pub api_server : Services → Config → Server
api_server s cfg = record {
  webhook_secret = cfg.webhook_secret;
  collate = s.collate;
  sum256 = s.sum256;
  cache = s.cache;
  decoder = s.decoder;
}

unfoldable pub syncs_periodically : Config → Bool
syncs_periodically cfg = has_library cfg && ltb_ℤ (pos 0) cfg.bunny_sync_interval_sec

-- The same loop over a ticker and the context as the scheduler's, with a synchronisation for each
-- tick that it takes; the error is logged. A round that is out of fuel stops at that point.
unfoldable pub sync_periodically : Services → Config → ℕ → List Signal → World → Loop × World
sync_periodically s cfg fuel signals w =
    Jobs.start
      (some (ignore (sync_library_content s.api (bunny_client cfg) fuel cfg.bunny_default_price)))
      signals w
