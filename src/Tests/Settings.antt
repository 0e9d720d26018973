-- ===== src/Tests/Settings.antt =====
-- A configuration of production, read from a few variables.
use streaming_bot.Prelude.{Text, text, text_eq, ◌&&◌, ◌≡◌, if◌then◌else◌}
use streaming_bot.Platform.Config.{Config, is_production, read_config, load}
use streaming_bot.Platform.Config.Required.{lacks_setting, is_refused, is_refused-load}

abbrev variables : Text → Text
variables key = if text_eq key (text "ENVIRONMENT") then text "prod" else text "x"

abbrev settings : Config
settings = read_config variables

is_refused-load_example :
    is_refused (load variables) ≡ (is_production settings.environment && lacks_setting settings)
is_refused-load_example = is_refused-load variables
