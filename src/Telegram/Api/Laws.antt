-- ===== src/Telegram/Api/Laws.antt =====
-- Answers leave the database alone.
use streaming_bot.Prelude.{Text, ◌≡◌}
use streaming_bot.Prelude.Int.{ℤ}
use streaming_bot.World.{World, send}
use streaming_bot.World.Calls.{send-db, ignore-db}
use streaming_bot.Telegram.Api.{reply, ack}

pub reply-db : (chat : ℤ) (body : Text) (w : World) → (reply chat body w).1.db ≡ w.db
unfolding reply
reply-db chat body w = ignore-db (send _) (send-db _) w

pub ack-db : (id body : Text) (w : World) → (ack id body w).1.db ≡ w.db
unfolding ack
ack-db id body w = ignore-db (send _) (send-db _) w
