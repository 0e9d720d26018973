-- ===== src/Threads/Front/Checkout.antt =====
-- The ways of the bot to a purchase, as threads.
use streaming_bot.Prelude.{Text, Option, none, some, Bool, not}
use streaming_bot.Prelude.Int.{ℤ, int_eq}
use streaming_bot.Exec.{Result, ok, err}
use streaming_bot.World
use streaming_bot.World.{Io}
use streaming_bot.Domain.Purchase.{Purchase}
use streaming_bot.Storage.Contents
use streaming_bot.Storage.Purchases
use streaming_bot.App.StartPurchase.{Invoice}
use streaming_bot.Telegram.Api.{SuccessfulPayment, PreCheckoutQuery, reply, ack}
use streaming_bot.Telegram.Checkout
use streaming_bot.Threads.{Thread, one, branch, attempted, ignored, and_then}
use streaming_bot.Threads.UseCases.{starting, confirming}

unfoldable pub replying : (chat : ℤ) (body : Text) → Thread (reply chat body)
unfolding reply
replying chat body = ignored (one _)

unfoldable pub acking : (id body : Text) → Thread (ack id body)
unfolding ack
acking id body = ignored (one _)

unfoldable pub after_invoice :
    (chat : ℤ) (id : Text) (r : Result (Unit {0})) → Thread (Checkout.after_invoice chat id r)
after_invoice chat id (ok _) = replying chat _
after_invoice chat id (err _) = replying chat _

unfoldable pub sending_invoice :
    (chat : ℤ) (id : Text) (res : Invoice) → Thread (Checkout.send_invoice chat id res)
unfolding Checkout.send_invoice
sending_invoice chat id res =
    and_then (attempted (one (Contents.get_by_id id)))
      λ item. and_then (attempted (one _)) λ sent. after_invoice chat res.purchase_id sent

unfoldable pub after_start :
    (chat : ℤ) (id : Text) (r : Result Invoice) → Thread (Checkout.after_start chat id r)
after_start chat id (ok res) = sending_invoice chat id res
after_start chat id (err _) = replying chat _

unfoldable pub starting_purchase :
    (chat user : ℤ) (id : Text) → Thread (Checkout.start_purchase chat user id)
unfolding Checkout.start_purchase
starting_purchase chat user id = and_then (attempted (starting _)) λ res. after_start chat id res

unfoldable pub after_payment :
    (chat : ℤ) (r : Result (Unit {0})) → Thread (Checkout.after_payment chat r)
after_payment chat (ok _) = replying chat _
after_payment chat (err _) = replying chat _

unfoldable pub receiving_payment :
    (chat : ℤ) (sp : SuccessfulPayment) → Thread (Checkout.successful_payment chat sp)
unfolding Checkout.successful_payment
receiving_payment chat sp =
    and_then (one World.time_now)
      λ now. and_then (attempted (confirming _)) λ res. after_payment chat res

unfoldable pub forcing : (chat user : ℤ) (id : Text) → Thread (Checkout.force_buy chat user id)
unfolding Checkout.force_buy
forcing chat user id = and_then (starting _) λ res.
    and_then (one World.time_now) λ now.
      and_then (one World.time_now) λ occurred_at. and_then (confirming _) λ _. replying chat _

unfoldable pub answering_query :
    (q : PreCheckoutQuery) (good : Bool) (reason : Text) → Thread (Checkout.answer q good reason)
unfolding Checkout.answer
answering_query q good reason = ignored (one _)

unfoldable pub answering_for :
    (q : PreCheckoutQuery) (r : Result (Option Purchase)) → Thread (Checkout.answer_for q r)
unfolding Checkout.answer_for
answering_for q (ok (some p)) = branch (not (int_eq p.user_id q.sender)) (answering_query q _ _) (
    branch (not (int_eq p.stars_amount q.total_amount)) (answering_query q _ _)
      (answering_query q _ _))
answering_for q (ok none) = answering_query q _ _
answering_for q (err _) = answering_query q _ _

unfoldable pub checking_out : (q : PreCheckoutQuery) → Thread (Checkout.handle_pre_checkout q)
unfolding Checkout.handle_pre_checkout
checking_out q = branch _ (answering_query q _ _) (
    and_then (attempted (one (Purchases.get_by_payload q.invoice_payload)))
      λ found. answering_for q found)
