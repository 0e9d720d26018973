-- ===== src/Tests/Front.antt =====
-- The properties of the bot and of the HTTP interface.
use streaming_bot.Prelude.{
  Text, text, [], ◌∷◌, ◌++◌, none, some, true, false, any, ◌≡◌, refl, arith,
}
use streaming_bot.Prelude.Int.{ℤ, pos, ℤ-discrete}
use streaming_bot.Prelude.Decimal.{decimal}
use streaming_bot.Exec.{ok, err, malformed}
use streaming_bot.World.{World, pre_checkout_answer}
use streaming_bot.App.Sender.{rating_button}
use streaming_bot.App.SubmitReview
use streaming_bot.App.StartPurchase
use streaming_bot.Platform.Strings.Laws.{has_char}
use streaming_bot.Telegram.Api.{Bot, Update, PreCheckoutQuery, toggled}
use streaming_bot.Telegram.Checkout.{force_buy, handle_pre_checkout, purchase_invoice}
use streaming_bot.Telegram.Checkout.Approval.{
  may_pay, paying, handle_pre_checkout_lem, invoice_is_approved,
}
use streaming_bot.Telegram.Catalogue.{buy_button}
use streaming_bot.Telegram.Checkout.Forced.{forced_event, force_buy_effects}
use streaming_bot.App.ConfirmPayment.Outcome.{HasConfirmed}
use streaming_bot.App.StartPurchase.Outcome.{pending_row}
use streaming_bot.Telegram.Bot.{handle_callback, handle_update}
use streaming_bot.Telegram.Bot.Buttons.{rated, ordered, press, buttons_pressed}
use streaming_bot.Http.Server.{Server, Request}
use streaming_bot.System.Reach.{initial}
use streaming_bot.System.Admins.{only_admins_edit}
use streaming_bot.System.Admins.Secret.{asks_mode, admins_by_secret}
use streaming_bot.Tests.{item, opened, order, invoice, sold, purchase_id, client, digest}
use streaming_bot.Tests.Sale.{sale}

abbrev bot : Bot
bot = record { poll_timeout = pos 30; admin_secret = text "s3"; collate = λ a b. true }

-- One item on sale, and user 9 is an admin.
abbrev shop : World
shop = record initial { db = record initial.db { content = item ∷ [] }; admins = pos 9 ∷ [] }

abbrev command : ℤ → Text → Text → Update
command user name arguments =
    Update.message
      (record { chat_id = user; sender = user; payment = none; command = some (name, arguments) })

abbrev query : PreCheckoutQuery
query = record {
  id = text "q1";
  sender = pos 7;
  currency = text "XTR";
  total_amount = pos 25;
  invoice_payload = invoice.invoice_payload;
}

handle_pre_checkout_lem_example :
    (reason : Text) × (handle_pre_checkout query sold ≡ (
      ok tt,
      record sold {
        sent = sold.sent ++ pre_checkout_answer (text "q1") (may_pay query sold) reason ∷ [];
      },
    ))
handle_pre_checkout_lem_example = handle_pre_checkout_lem query sold sale.9

invoice_is_approved_example :
    (reason : Text) × (handle_pre_checkout
        (paying order opened invoice sale.0
          (purchase_invoice (pos 7) (ok (some item)) invoice)
          (text "q1"))
        sold
      ≡ (
        ok tt,
        record sold { sent = sold.sent ++ pre_checkout_answer (text "q1") true reason ∷ [] },
      ))
invoice_is_approved_example =
    invoice_is_approved order opened invoice sale.0 (pos 7) (ok (some item)) (text "q1") sale.9

force_buy_effects_example :
    ((force_buy (pos 7) (pos 7) (text "c1") opened).0 ≡ ok tt)
    × HasConfirmed
        (forced_event (pos 7) invoice sold.clock)
        (pending_row order invoice opened.clock)
        sold.clock
        sold.db
        (force_buy (pos 7) (pos 7) (text "c1") opened).1.db
force_buy_effects_example =
    force_buy_effects (pos 7) (pos 7) (text "c1") opened invoice sale.0 sale.12 sale.10 sale.11
      sale.9 sale.13

-- User 8 is no admin.
stranger :
    any (λ a. elim (ℤ-discrete (pos 8) a) [ yes _ ↦ true | no _ ↦ false ]) shop.admins ≡ false
unfolding any ℤ-discrete
stranger = refl

only_admins_edit_example :
    (handle_update bot (command (pos 8) (text "deletecontent") (text "c1")) shop).1.db.content
    ≡ item ∷ []
only_admins_edit_example =
    only_admins_edit bot (command (pos 8) (text "deletecontent") (text "c1")) shop stranger

admins_by_secret_example :
    (handle_update bot (command (pos 8) (text "adminmode") (text " s3")) shop).1.admins
    ≡ (elim (asks_mode bot (command (pos 8) (text "adminmode") (text " s3"))) [
      | none ↦ shop.admins
      | some user ↦ toggled user shop.admins
    ])
admins_by_secret_example =
    admins_by_secret bot (command (pos 8) (text "adminmode") (text " s3")) shop

no_colon : has_char b':' purchase_id ≡ false
unfolding any
no_colon = refl

buttons_pressed_example :
    ((handle_callback
        (press (text "q2") (pos 7) (pos 7) (rating_button purchase_id (decimal 4)))
        sold).1.db
      ≡ (SubmitReview.handle (rated (pos 7) purchase_id 4) sold).1.db)
    × ((handle_callback (press (text "q2") (pos 7) (pos 7) (buy_button item)) sold).1.db
        ≡ (StartPurchase.handle (ordered (pos 7) (text "c1")) sold).1.db)
buttons_pressed_example =
    buttons_pressed (text "q2") (pos 7) (pos 7) purchase_id 4 item sold no_colon (omega arith)

abbrev server : Server
server = record {
  webhook_secret = text "s3";
  collate = λ a b. true;
  sum256 = digest;
  cache = client;
  decoder = record {
    start_command = λ t. ok order;
    payment_body = λ t. err (malformed t);
    use_command = λ t. ok t;
    review_command = λ t. err (malformed t);
  };
}

-- A forged payment.
abbrev forged : Request
forged = record {
  method = text "POST";
  path = text "/webhook/telegram/successful_payment";
  secret_token = text "s4";
  body = text "{}";
}
