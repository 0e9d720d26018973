-- ===== src/Telegram/Bot.antt =====
-- The dispatch of the bot: updates, commands and buttons.
pub mod Buttons
use streaming_bot.Prelude.{
  Text, text, text_eq, List, [], ◌∷◌, ◌++◌, Option, none, some, ◌||◌, not, if◌then◌else◌,
}
use streaming_bot.Prelude.Int.{ℤ}
use streaming_bot.Exec.{Result, ok, err, message, ignore, attempt, ◌>>=◌, ◌>>◌, pure}
use streaming_bot.World.{Io}
use streaming_bot.App.SubmitReview
use streaming_bot.Platform.Atoi.{atoi}
use streaming_bot.Platform.Strings.{trim_space, fields, join, split, strip_prefix}
use streaming_bot.Telegram.Api
use streaming_bot.Telegram.Api.{
  Bot, IncomingMessage, CallbackQuery, Update, pre_checkout, callback, other, reply, ack, is_admin,
  toggle_admin,
}
use streaming_bot.Telegram.Checkout.{
  start_purchase, successful_payment, force_buy, handle_pre_checkout,
}
use streaming_bot.Telegram.Catalogue.{create_fields, set_fields, delete_content, catalog}

-- `case "adminmode"`
unfoldable pub admin_mode : Bot → ℤ → ℤ → Text → Io Unit
admin_mode b chat user secret =
    if text_eq secret [] || not (text_eq secret b.admin_secret)
    then reply chat (text "admin denied")
    else toggle_admin user >>= λ enabled.
        reply chat (if enabled then text "admin mode enabled" else text "admin mode disabled")

-- `if !b.isAdmin(userID)`
unfoldable pub admin_only : ℤ → ℤ → Io Unit → Io Unit
admin_only chat user command =
    is_admin user >>= λ admin. if admin then command else reply chat (text "admin required")

abbrev pub after_force_buy : ℤ → Result (Unit {0}) → Io Unit
after_force_buy chat (ok _) =
    reply chat (text "forcebuy success: purchase marked paid; access link will be sent shortly")
after_force_buy chat (err e) = reply chat (text "forcebuy failed: " ++ message e)

-- `case "forcebuy"` of an admin
unfoldable pub force_command : ℤ → ℤ → Text → Io Unit
force_command chat user content_id =
    if text_eq content_id []
    then reply chat (text "Usage: /forcebuy <content_id>")
    else attempt (force_buy chat user content_id) >>= λ res. after_force_buy chat res

-- `case "buy"`
unfoldable pub buy_command : ℤ → ℤ → Text → Io Unit
buy_command chat user content_id =
    if text_eq content_id []
    then reply chat (text "Usage: /buy <content_id>")
    else start_purchase chat user content_id

abbrev pub after_review : ℤ → Result (Unit {0}) → Io Unit
after_review chat (ok _) = reply chat (text "Review saved. Thank you.")
after_review chat (err _) = reply chat (text "Could not save review")

unfoldable pub review_rated : ℤ → ℤ → Text → Option ℤ → List Text → Io Unit
review_rated chat user purchase_id none words = reply chat (text "Rating must be 1-5")
review_rated chat user purchase_id (some rating) words = do
  res ← attempt (
      SubmitReview.handle (record {
        user_id = user;
        purchase_id = purchase_id;
        rating = rating;
        comment = join (text " ") words;
      }))
  after_review chat res

-- `case "review"`: less than two fields are too few.
unfoldable pub review_fields : ℤ → ℤ → List Text → Io Unit
review_fields chat user (purchase_id ∷ rating ∷ words) =
    review_rated chat user purchase_id (atoi rating) words
review_fields chat user _ = reply chat (text "Usage: /review <purchase_id> <rating> [text]")

-- The commands by name.
unfoldable pub handle_command : Bot → ℤ → ℤ → Text → Text → Io Unit
handle_command b chat user name arguments =
    if text_eq name (text "start")
    then reply chat (text "Welcome. Use /catalog to see available videos.")
    else if text_eq name (text "help")
    then reply chat
        (text "Commands:\n/catalog\n/buy <content_id>\n/review <purchase_id> <rating> [text]")
    else if text_eq name (text "adminmode")
    then admin_mode b chat user (trim_space arguments)
    else if text_eq name (text "createcontent")
    then admin_only chat user (create_fields chat (fields (trim_space arguments)))
    else if text_eq name (text "deletecontent")
    then admin_only chat user (delete_content chat (trim_space arguments))
    else if text_eq name (text "setcontent")
    then admin_only chat user (set_fields chat (fields (trim_space arguments)))
    else if text_eq name (text "forcebuy")
    then admin_only chat user (force_command chat user (trim_space arguments))
    else if text_eq name (text "catalog")
    then catalog b chat
    else if text_eq name (text "buy")
    then buy_command chat user (trim_space arguments)
    else if text_eq name (text "review")
    then review_fields chat user (fields arguments)
    else reply chat (text "Unknown command. Use /help")

-- A payment first, then a command; any other message is let be.
unfoldable pub dispatch :
    Bot → ℤ → ℤ → Option Api.SuccessfulPayment → Option (Text × Text) → Io Unit
dispatch b chat user (some sp) command = successful_payment chat sp
dispatch b chat user none (some (name, arguments)) = handle_command b chat user name arguments
dispatch b chat user none none = pure tt

-- `b.handleMessage`
unfoldable pub handle_message : Bot → IncomingMessage → Io Unit
handle_message b m = dispatch b m.chat_id m.sender m.payment m.command

-- A button with a number; what the use case says of it is dropped.
unfoldable pub rate : ℤ → ℤ → Text → Option ℤ → Io Unit
rate chat user purchase_id none = pure tt
rate chat user purchase_id (some rating) = do
  ignore (
      SubmitReview.handle (record {
        user_id = user;
        purchase_id = purchase_id;
        rating = rating;
        comment = text "rating from inline keyboard";
      }))
  reply chat (text "Review saved. Thank you.")

-- The parts of a `review:` button: three, or nothing happens.
unfoldable pub rate_parts : ℤ → ℤ → List Text → Io Unit
rate_parts chat user (_ ∷ purchase_id ∷ rating ∷ []) = rate chat user purchase_id (atoi rating)
rate_parts chat user _ = pure tt

unfoldable pub press_review : CallbackQuery → Option Text → Io Unit
press_review q none = pure tt
press_review q (some _) =
    rate_parts q.chat_id q.sender (split b':' q.button) >> ack q.id (text "Review submitted")

unfoldable pub press_buy : CallbackQuery → Option Text → Io Unit
press_buy q none = press_review q (strip_prefix (text "review:") q.button)
press_buy q (some content_id) =
    start_purchase q.chat_id q.sender content_id >> ack q.id (text "Purchase started")

-- `b.handleCallback`
unfoldable pub handle_callback : CallbackQuery → Io Unit
handle_callback q = press_buy q (strip_prefix (text "buy:") q.button)

-- `b.handleUpdate`
unfoldable pub handle_update : Bot → Update → Io Unit
handle_update b (pre_checkout q) = handle_pre_checkout q
handle_update b (Update.message m) = handle_message b m
handle_update b (callback q) = handle_callback q
handle_update b other = pure tt
