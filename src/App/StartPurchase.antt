-- ===== src/App/StartPurchase.antt =====
-- internal/app/start_purchase.
pub mod Outcome
use streaming_bot.Prelude.{Text, text, [], ◌∷◌, ◌++◌, none, not}
use streaming_bot.Prelude.Int.{ℤ}
use streaming_bot.Prelude.Decimal.{decimal_ℤ}
use streaming_bot.Exec.{
  ◌>>=◌, ◌>>◌, pure, attempt, present, raise_if, content_not_found, content_inactive,
}
use streaming_bot.World.{World, Io, time_now}
use streaming_bot.Domain.Content.{Content, can_be_purchased}
use streaming_bot.Domain.Purchase.{Purchase, pending}
use streaming_bot.Storage.Contents
use streaming_bot.Storage.Purchases
use streaming_bot.Platform.Json.{marshal_string}
use streaming_bot.Platform.Idgen.{new_id}

pub record Command : Type 0 where
  pub user_id : ℤ
  pub content_id : Text

pub record Invoice : Type 0 where
  pub purchase_id : Text
  pub invoice_payload : Text
  pub amount_stars : ℤ

-- `json.Marshal` of the payload's map, whose keys come out sorted; a string or a number cannot
-- fail to encode.
unfoldable pub payload : Text → ℤ → Text → Text
payload purchase_id user_id content_id =
    text "{\"content_id\":"
    ++ (marshal_string content_id
        ++ (text ",\"purchase_id\":"
            ++ (marshal_string purchase_id
                ++ (text ",\"user_id\":" ++ (decimal_ℤ user_id ++ text "}")))))

unfoldable pub handle : Command → Io Invoice
handle cmd = do
  found ← attempt (Contents.get_by_id cmd.content_id)
  c ← present found content_not_found
  raise_if (not (can_be_purchased c)) content_inactive
  purchase_id ← new_id
  let invoice_payload = payload purchase_id cmd.user_id cmd.content_id
  now ← time_now
  Purchases.create (record {
    id = purchase_id;
    user_id = cmd.user_id;
    content_id = cmd.content_id;
    status = pending;
    telegram_payload = invoice_payload;
    telegram_charge_id = [];
    stars_amount = c.price_stars;
    created_at = now;
    paid_at = none;
    issue_link_attempts = 0;
    last_issue_link_error = [];
    last_issue_link_at = none;
    review_requested_at = none;
  })
  pure (record {
    purchase_id = purchase_id;
    invoice_payload = invoice_payload;
    amount_stars = c.price_stars;
  })
