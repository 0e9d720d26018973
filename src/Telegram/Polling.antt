-- ===== src/Telegram/Polling.antt =====
-- The loop of the bot (telegram/bot.go): the menu, and the updates as they arrive until the context
-- is cancelled.
use streaming_bot.Prelude.{text, List, [], ◌∷◌}
use streaming_bot.Exec.{ignore, ◌>>◌, pure}
use streaming_bot.World.{Io, menu, send}
use streaming_bot.Telegram.Api.{Bot, Update}
use streaming_bot.Telegram.Bot.{handle_update}

-- `b.SetMenu`
unfoldable pub set_menu : Io Unit
set_menu = send (
    menu (
      (text "start", text "Start bot")
      ∷ (text "catalog", text "Show content catalog")
      ∷ (text "buy", text "Buy content by ID: /buy <content_id>")
      ∷ (text "review", text "Submit review: /review <purchase_id> <rating> [text]")
      ∷ (text "help", text "Show help")
      ∷ []))

pub data Arrival : Type 0 where
  arrived : Update → Arrival
  cancelled : Arrival

-- The loop, in the order in which `select` takes what arrives. A handler returns nothing.
unfoldable pub poll : Bot → List Arrival → Io Unit
poll b [] = pure tt
poll b (cancelled ∷ _) = pure tt
poll b (arrived u ∷ rest) = ignore (handle_update b u) >> poll b rest

-- `b.Start`: without the menu there is no loop.
unfoldable pub start : Bot → List Arrival → Io Unit
start b arrivals = set_menu >> poll b arrivals
