-- ===== src/Telegram/Api.antt =====
-- What the bot takes from Telegram and the ways it answers (telegram/bot.go). An update has at most
-- one of the three contents that the bot looks at, and a message or a query has a sender and a
-- chat. Whether a message is a command, its name and its arguments are as the package
-- go-telegram-bot-api reads them.
pub mod Laws
use streaming_bot.Prelude.{Text, List, [], ◌∷◌, Option, Bool, not, any, select, if◌then◌else◌}
use streaming_bot.Prelude.Int.{ℤ, pos, ltb_ℤ, int_eq}
use streaming_bot.Exec.{Result, ok, err, gets, ignore}
use streaming_bot.World.{Io, text_message, callback_answer, send}

pub record SuccessfulPayment : Type 0 where
  pub currency : Text
  pub total_amount : ℤ
  pub invoice_payload : Text
  pub charge_id : Text

-- `command` is the name and the arguments, where the message is a command.
pub record IncomingMessage : Type 0 where
  pub chat_id : ℤ
  pub sender : ℤ
  pub payment : Option SuccessfulPayment
  pub command : Option (Text × Text)

pub record CallbackQuery : Type 0 where
  pub id : Text
  pub chat_id : ℤ
  pub sender : ℤ
  pub button : Text

pub record PreCheckoutQuery : Type 0 where
  pub id : Text
  pub sender : ℤ
  pub currency : Text
  pub total_amount : ℤ
  pub invoice_payload : Text

pub data Update : Type 0 where
  pre_checkout : PreCheckoutQuery → Update
  message : IncomingMessage → Update
  callback : CallbackQuery → Update
  other : Update

-- The fields of the bot that do not change, and the collation of the catalogue's database.
pub record Bot : Type 0 where
  pub poll_timeout : ℤ
  pub admin_secret : Text
  pub collate : Text → Text → Bool

-- `b.reply`: an error of the call is dropped.
unfoldable pub reply : ℤ → Text → Io Unit
reply chat body =
    ignore (send (text_message (record { chat_id = chat; body = body; buttons = [] })))

-- `b.ack`
unfoldable pub ack : Text → Text → Io Unit
ack id body = ignore (send (callback_answer id body))

-- `b.isAdmin`
unfoldable pub is_admin : ℤ → Io Bool
is_admin user = gets (λ w. any (int_eq user) w.admins)

-- The map's entry of the user is turned over.
abbrev pub toggled : ℤ → List ℤ → List ℤ
toggled user admins =
    if any (int_eq user) admins then select (λ a. not (int_eq user a)) admins else user ∷ admins

-- `b.toggleAdmin`: the new entry.
unfoldable pub toggle_admin : ℤ → Io Bool
toggle_admin user w =
    let admins = toggled user w.admins in
    (ok (any (int_eq user) admins), record w { admins = admins })

-- `NewBot`; `connected` is how `NewBotAPI` of the token ends.
unfoldable pub new_bot : Result (Unit {0}) → (Text → Text → Bool) → ℤ → Text → Result Bot
new_bot (err e) collate poll_timeout admin_secret = err e
new_bot (ok _) collate poll_timeout admin_secret = ok (record {
  poll_timeout = if ltb_ℤ (pos 0) poll_timeout then poll_timeout else pos 30;
  admin_secret = admin_secret;
  collate = collate;
})
