-- ===== src/Tests/Sale.antt =====
-- The sale step by step: what each call returns.
use streaming_bot.Prelude.{
  ◌≡◌, refl, Text-discrete, find, any, update_where, select, true, false, some, text_eq, [],
}
use streaming_bot.Prelude.Tables.{count}
use streaming_bot.Prelude.Decimal.{decimal, decimal_ℤ}
use streaming_bot.Exec.{ok, gets, pure, attempt, present, raise_if, ignore, on, modify, ◌>>=◌}
use streaming_bot.World.{sql, redis, send, time_now, rand_read}
use streaming_bot.Domain.Content.{can_be_purchased}
use streaming_bot.Domain.Purchase.{
  mark_paid, mark_access_issued, status_text, parse_status, Status-discrete,
}
use streaming_bot.Domain.Review.{is_valid_rating}
use streaming_bot.Storage.Contents
use streaming_bot.Storage.Purchases
use streaming_bot.Storage.Grants
use streaming_bot.Storage.Tokens
use streaming_bot.Storage.Outbox
use streaming_bot.Storage.Payments
use streaming_bot.Storage.Reviews
use streaming_bot.Platform.Hex.{encode_to_string}
use streaming_bot.Platform.Crypto.{token_digest, generate}
use streaming_bot.Platform.Idgen.{new_id}
use streaming_bot.Platform.Json.{escape, escape_all, marshal_string}
use streaming_bot.App.Sender.{send_access_link}
use streaming_bot.Telegram.Checkout.{force_charge}
use streaming_bot.Prelude.Int.{pos, is_int4}
use streaming_bot.App.StartPurchase
use streaming_bot.App.ConfirmPayment
use streaming_bot.App.IssueAccess
use streaming_bot.App.UseAccess
use streaming_bot.App.SubmitReview
use streaming_bot.Jobs.{after_issue, process_event, process_all, run_once}
use streaming_bot.System.Sound.{has_grant, confirmations}
use streaming_bot.System.Delivered.{is_published}
use streaming_bot.Tests.{
  order, opened, invoice, sold, payment, served, token, admission, digest, client, purchase_id,
  opinion, redeemed, reviewed,
}

-- Each call of the sale goes through, with nothing left of the faults.
pub sale :
    ((StartPurchase.handle order opened).0 ≡ ok invoice)
    × ((ConfirmPayment.handle payment sold).0 ≡ ok tt)
    × (has_grant purchase_id served.db ≡ true)
    × (any (is_published purchase_id) served.db.outbox_events ≡ true)
    × (served.net ≡ [])
    × ((UseAccess.handle digest client token served).0 ≡ ok admission)
    × ((SubmitReview.handle opinion redeemed).0 ≡ ok tt)
    × (confirmations purchase_id served.db ≡ 1)
    × (reviewed.net ≡ [])
    × (sold.net ≡ [])
    × (Payments.processed (force_charge (pos 7) sold.clock) sold.db ≡ false)
    × (any
          (λ q. Purchases.same_charge q.telegram_charge_id (some (force_charge (pos 7) sold.clock)))
          opened.db.purchases
        ≡ false)
    × (is_int4 invoice.amount_stars ≡ true)
    × (any (λ q. text_eq q.id (Outbox.event_id sold.clock purchase_id)) sold.db.outbox_events
        ≡ false)
unfolding is_int4 count Contents.upsert Contents.upsert_row StartPurchase.handle
    StartPurchase.payload Contents.get_by_id can_be_purchased new_id rand_read encode_to_string
    Purchases.create Purchases.insert_row Purchases.to_row Purchases.nullable_string status_text
    time_now sql gets pure attempt present raise_if ◌>>=◌ Text-discrete find any escape escape_all
    marshal_string ConfirmPayment.handle ConfirmPayment.confirm Payments.is_processed
    Purchases.get_by_payload Purchases.select_one Purchases.of_row parse_status mark_paid
    Status-discrete on modify Purchases.update Purchases.update_row update_where
    Payments.save_payment_event Payments.insert_event Outbox.publish_purchase_confirmed
    Outbox.insert_row Outbox.event_id Payments.mark_processed Payments.insert_key run_once
    process_all process_event after_issue Outbox.unpublished Outbox.order_by_created select
    Outbox.mark_published Outbox.mark_published_row IssueAccess.handle IssueAccess.after_provider
    IssueAccess.grant_access IssueAccess.finish Purchases.get_by_id mark_access_issued generate
    token_digest Grants.create Grants.insert_row Tokens.put Tokens.key redis ignore send_access_link
    send UseAccess.handle UseAccess.check UseAccess.redeem Tokens.get Tokens.delete
    Grants.get_by_token_hash Grants.select_by_hash Grants.mark_used Grants.mark_used_row
    SubmitReview.handle Reviews.create Reviews.insert_row is_valid_rating decimal_ℤ decimal
sale = (refl, refl, refl, refl, refl, refl, refl, refl, refl, refl, refl, refl, refl, refl)
