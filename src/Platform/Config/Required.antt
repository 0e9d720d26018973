-- ===== src/Platform/Config/Required.antt =====
-- What a configuration that loads guarantees.
use streaming_bot.Prelude.{Text, text_eq, [], Bool, true, false, ◌||◌, ◌&&◌, ◌≡◌, ◌≢◌, arith}
use streaming_bot.Platform.Config.{
  Config, Loaded, loaded, required, is_production, require_settings, read_config, load,
}

-- One of the three settings is empty.
abbrev pub lacks_setting : Config → Bool
lacks_setting cfg =
    text_eq cfg.bot_token [] || text_eq cfg.bunny_library_id [] || text_eq cfg.bunny_api_key []

-- `Load` returns an error.
abbrev pub is_refused : Loaded → Bool
is_refused (loaded _) = false
is_refused (required _) = true

-- A configuration is refused exactly when the environment is production and one of the bot token,
-- the library id and the key of the video service is empty.
pub is_refused-load :
    (getenv : Text → Text)
    → let cfg = read_config getenv in
      is_refused (load getenv) ≡ (is_production cfg.environment && lacks_setting cfg)
unfolding load require_settings
is_refused-load getenv = ground arith

-- A configuration that loads has a bot token; in production the environment gives it a bot token,
-- a library id and a key of the video service; and but for the bot token it is what the
-- environment and the defaults say.
pub load-loaded :
    (getenv : Text → Text) (cfg : Config)
    → load getenv ≡ loaded cfg
    → (cfg.bot_token ≢ [])
      × ((is_production cfg.environment && lacks_setting (read_config getenv)) ≡ false)
      × (cfg ≡ record (read_config getenv) { bot_token = cfg.bot_token })
unfolding load require_settings
load-loaded getenv cfg e = (λ h. ground arith, ground arith, ground arith)
