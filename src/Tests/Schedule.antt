-- ===== src/Tests/Schedule.antt =====
-- A sale by threads that take turns: the fixtures and what they come to.
use streaming_bot.Prelude.{
  ◌≡◌, refl, Text, text, Text-discrete, List, [], ◌∷◌, ◌++◌, take, find, any, update_where, select,
  true,
}
use streaming_bot.Prelude.Int.{pos, is_int4}
use streaming_bot.Prelude.Tables.{count}
use streaming_bot.Prelude.Decimal.{decimal, decimal_ℤ}
use streaming_bot.Exec.{
  ok, err, malformed, gets, pure, attempt, present, raise_if, ignore, on, modify, ◌>>=◌,
}
use streaming_bot.World.{sql, redis, time_now, rand_read}
use streaming_bot.Domain.Content.{can_be_purchased}
use streaming_bot.Domain.Purchase.{mark_paid, status_text, parse_status, Status-discrete}
use streaming_bot.Storage.Contents
use streaming_bot.Storage.Purchases
use streaming_bot.Storage.Grants
use streaming_bot.Storage.Outbox
use streaming_bot.Storage.Payments
use streaming_bot.Platform.Hex.{encode_to_string}
use streaming_bot.Platform.Crypto.{token_digest, generate}
use streaming_bot.Platform.Idgen.{new_id}
use streaming_bot.Platform.Json.{escape, escape_all, marshal_string}
use streaming_bot.Platform.Strings.{trim_space, trim_left, trim_right, is_space}
use streaming_bot.App.StartPurchase
use streaming_bot.App.ConfirmPayment
use streaming_bot.Http.Server.{Server, Request, Decoder}
use streaming_bot.Threads.{chain, tried, dropped, one, local, branch, attempted, ignored, and_then}
use streaming_bot.Threads.Locals.{returned, raised, presented, raised_if, applied}
use streaming_bot.Threads.UseCases.{
  publishing, writing_paid, confirming_due, confirming, new_identifier, starting,
}
use streaming_bot.Threads.Issuing.{
  generating, granting, answering, issuing, processing, processing_all, working,
}
use streaming_bot.Threads.Front.Server.{
  posting, decoding, starting_decoded, paying_decoded, serving,
}
use streaming_bot.Threads.Pool.{
  Move, arrive, turn, pass, http, work, seed, resume, turn_of, thread_of, make, play,
}
use streaming_bot.Threads.Pool.Paid.{idle}
use streaming_bot.Threads.Pool.Later.{redeem_in, confirm_in}
use streaming_bot.Domain.Payment.{Event}
use streaming_bot.Storage.Tokens
use streaming_bot.App.UseAccess
use streaming_bot.System.Sound.{has_grant}
use streaming_bot.Tests.{handler, bytes, client, digest}

abbrev pub bought_id : Text
bought_id = text "0102030405060708090a0b0c0d0e0fff"

abbrev pub decoder : Decoder
decoder = record {
  start_command = λ t. ok (record { user_id = pos 7; content_id = text "content-demo-1" });
  payment_body = λ t. ok (record {
    charge_id = text "ch1";
    amount_stars = pos 25;
    invoice_payload = StartPurchase.payload bought_id (pos 7) (text "content-demo-1");
    raw_payload = text "raw";
  });
  use_command = λ t. err (malformed (text "body"));
  review_command = λ t.
      ok (record {
        user_id = pos 7;
        purchase_id = bought_id;
        rating = pos 4;
        comment = text "good";
      });
}

abbrev pub server : Server
server = record {
  webhook_secret = [];
  collate = λ a b. true;
  sum256 = digest;
  cache = client;
  decoder = decoder;
}

abbrev pub post : Text → Request
post path = record { method = text "POST"; path = path; secret_token = []; body = [] }

-- The demo content is made while a purchase is started; the webhook comes twice, and a round of the
-- outbox begins before the second delivery has ended.
abbrev pub schedule : List Move
schedule =
    pass 10 10 (bytes ++ bytes ++ bytes) [] []
    ∷ arrive seed
    ∷ arrive (http server (post (text "/purchase/start")))
    ∷ turn 0
    ∷ turn 1
    ∷ turn 1
    ∷ turn 1
    ∷ turn 1
    ∷ arrive (http server (post (text "/webhook/telegram/successful_payment")))
    ∷ arrive (http server (post (text "/webhook/telegram/successful_payment")))
    ∷ arrive work
    ∷ turn 2
    ∷ turn 3
    ∷ turn 2
    ∷ turn 2
    ∷ turn 2
    ∷ turn 2
    ∷ turn 2
    ∷ turn 2
    ∷ turn 2
    ∷ turn 2
    ∷ turn 4
    ∷ turn 3
    ∷ turn 4
    ∷ turn 4
    ∷ turn 4
    ∷ turn 4
    ∷ turn 4
    ∷ turn 4
    ∷ []

abbrev pub bought_token : Text
bought_token = bought_id ++ bought_id

abbrev pub let_in : UseAccess.Admission
let_in = record { purchase_id = bought_id; user_id = pos 7; valid = true }

abbrev pub bought_with : Event
bought_with = record {
  charge_id = text "ch1";
  amount_stars = pos 25;
  invoice_payload = StartPurchase.payload bought_id (pos 7) (text "content-demo-1");
  raw_payload = text "raw";
  occurred_at = 10;
}

-- The item is on sale and the purchase is started.
abbrev pub before_payment : List Move
before_payment = take 8 schedule

-- The purchase has a grant, whose token is accepted, and a payment before was confirmed.
pub scheduled :
    (has_grant bought_id (play handler schedule idle).world.db ≡ true)
    × ((redeem_in handler bought_token (play handler schedule idle)).0 ≡ ok let_in)
    × ((confirm_in bought_with (play handler before_payment idle)).0 ≡ ok tt)
unfolding is_int4 count Contents.seed_row Contents.ensure_demo_content StartPurchase.handle
    StartPurchase.payload Contents.get_by_id can_be_purchased new_id rand_read encode_to_string
    Purchases.create Purchases.insert_row Purchases.to_row Purchases.nullable_string status_text
    time_now sql gets pure attempt present raise_if ◌>>=◌ Text-discrete find any escape escape_all
    marshal_string Payments.is_processed Purchases.get_by_payload Purchases.select_one
    Purchases.of_row parse_status mark_paid Status-discrete on modify Purchases.update
    Purchases.update_row update_where Payments.save_payment_event Payments.insert_event
    Outbox.publish_purchase_confirmed Outbox.insert_row Outbox.event_id Payments.mark_processed
    Payments.insert_key Outbox.unpublished Outbox.order_by_created select Purchases.get_by_id
    generate token_digest Grants.create Grants.insert_row ignore decimal_ℤ decimal trim_space
    trim_left trim_right is_space play make turn_of resume thread_of chain tried dropped one local
    branch attempted ignored and_then returned raised presented raised_if applied publishing
    writing_paid confirming_due confirming new_identifier starting generating granting answering
    issuing processing processing_all working posting decoding starting_decoded paying_decoded
    serving UseAccess.handle UseAccess.check UseAccess.redeem Tokens.get Tokens.delete redis
    Grants.get_by_token_hash Grants.select_by_hash Grants.mark_used Grants.mark_used_row
    ConfirmPayment.handle ConfirmPayment.confirm
scheduled = (refl, refl, refl)
