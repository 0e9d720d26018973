-- ===== src/Threads/Quiet/Front/Checkout.antt =====
-- The ways of the bot to a purchase, beside other threads.
use streaming_bot.Prelude.{Text, Option, none, some, Bool}
use streaming_bot.Prelude.Int.{ℤ}
use streaming_bot.Exec.{Result, ok, err}
use streaming_bot.World.Calls.{time_now-db, send-db}
use streaming_bot.Domain.Purchase.{Purchase}
use streaming_bot.Storage.Contents
use streaming_bot.Storage.Purchases
use streaming_bot.App.StartPurchase.{Invoice}
use streaming_bot.Telegram.Api.{SuccessfulPayment, PreCheckoutQuery}
use streaming_bot.Threads.Front.Checkout.{
  replying, acking, after_invoice, sending_invoice, after_start, starting_purchase, after_payment,
  receiving_payment, forcing, answering_query, answering_for, checking_out,
}
use streaming_bot.Threads.Rely.{Rely}
use streaming_bot.Threads.Quiet.Allows.{Allows}
use streaming_bot.Threads.Quiet.UseCases.{starting-IsQuiet}
use streaming_bot.Threads.Quiet.{IsQuiet, quiet_rules}

module _ {R : Rely} (a : Allows R) where
  ruleset calls = (quiet_rules, time_now-db, send-db)

  pub replying-IsQuiet : (chat : ℤ) (body : Text) → IsQuiet R (replying chat body)
  unfolding replying
  replying-IsQuiet chat body = search calls

  pub acking-IsQuiet : (id body : Text) → IsQuiet R (acking id body)
  unfolding acking
  acking-IsQuiet id body = search calls

  after_invoice-IsQuiet :
      (chat : ℤ) (id : Text) (r : Result (Unit {0})) → IsQuiet R (after_invoice chat id r)
  unfolding after_invoice
  after_invoice-IsQuiet chat id (ok _) = replying-IsQuiet chat _
  after_invoice-IsQuiet chat id (err _) = replying-IsQuiet chat _

  sending_invoice-IsQuiet :
      (chat : ℤ) (id : Text) (res : Invoice) → IsQuiet R (sending_invoice chat id res)
  unfolding sending_invoice Contents.get_by_id
  sending_invoice-IsQuiet chat id res = search (calls, after_invoice-IsQuiet) depth 30

  after_start-IsQuiet :
      (chat : ℤ) (id : Text) (r : Result Invoice) → IsQuiet R (after_start chat id r)
  unfolding after_start
  after_start-IsQuiet chat id (ok res) = sending_invoice-IsQuiet chat id res
  after_start-IsQuiet chat id (err _) = replying-IsQuiet chat _

  pub starting_purchase-IsQuiet :
      (chat user : ℤ) (id : Text) → IsQuiet R (starting_purchase chat user id)
  unfolding starting_purchase
  starting_purchase-IsQuiet chat user id =
      search (calls, starting-IsQuiet, after_start-IsQuiet) depth 30

  after_payment-IsQuiet : (chat : ℤ) (r : Result (Unit {0})) → IsQuiet R (after_payment chat r)
  unfolding after_payment
  after_payment-IsQuiet chat (ok _) = replying-IsQuiet chat _
  after_payment-IsQuiet chat (err _) = replying-IsQuiet chat _

  pub receiving_payment-IsQuiet :
      (chat : ℤ) (sp : SuccessfulPayment) → IsQuiet R (receiving_payment chat sp)
  unfolding receiving_payment
  receiving_payment-IsQuiet chat sp = search (calls, a.confirm, after_payment-IsQuiet) depth 30

  pub forcing-IsQuiet : (chat user : ℤ) (id : Text) → IsQuiet R (forcing chat user id)
  unfolding forcing
  forcing-IsQuiet chat user id =
      search (calls, starting-IsQuiet, a.confirm, replying-IsQuiet) depth 30

  answering_query-IsQuiet :
      (q : PreCheckoutQuery) (good : Bool) (reason : Text)
      → IsQuiet R (answering_query q good reason)
  unfolding answering_query
  answering_query-IsQuiet q good reason = search calls

  answering_for-IsQuiet :
      (q : PreCheckoutQuery) (r : Result (Option Purchase)) → IsQuiet R (answering_for q r)
  unfolding answering_for
  answering_for-IsQuiet q (ok (some p)) = search (calls, answering_query-IsQuiet) depth 30
  answering_for-IsQuiet q (ok none) = answering_query-IsQuiet q _ _
  answering_for-IsQuiet q (err _) = answering_query-IsQuiet q _ _

  pub checking_out-IsQuiet : (q : PreCheckoutQuery) → IsQuiet R (checking_out q)
  unfolding checking_out Purchases.get_by_payload Purchases.select_one
  checking_out-IsQuiet q = search (calls, answering_query-IsQuiet, answering_for-IsQuiet) depth 30
