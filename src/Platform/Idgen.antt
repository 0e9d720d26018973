-- ===== src/Platform/Idgen.antt =====
-- platform/idgen/idgen.go.
use streaming_bot.Prelude.{Text}
use streaming_bot.Exec.{pure, ◌>>=◌}
use streaming_bot.World.{Io, rand_read}
use streaming_bot.Platform.Hex.{encode_to_string}

unfoldable pub new_id : Io Text
new_id = do buf ← rand_read 16; pure (encode_to_string buf)
