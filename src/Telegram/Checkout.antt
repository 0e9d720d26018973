-- ===== src/Telegram/Checkout.antt =====
-- The ways of the bot to a purchase: the invoice, the query before the checkout, the payment, and
-- the purchase that an admin makes without paying.
pub mod Approval
pub mod Forced
use streaming_bot.Prelude.{
  ℕ, ◌*◌, Text, text, text_eq, [], ◌++◌, Option, none, some, Bool, true, false, not, if◌then◌else◌,
}
use streaming_bot.Prelude.Int.{ℤ, int_eq}
use streaming_bot.Prelude.Decimal.{decimal, decimal_ℤ}
use streaming_bot.Exec.{Result, ok, err, ignore, attempt, ◌>>=◌, ◌>>◌, pure}
use streaming_bot.World.{World, Io, InvoiceMessage, invoice, pre_checkout_answer, send, time_now}
use streaming_bot.Domain.Content.{Content}
use streaming_bot.Domain.Purchase.{Purchase}
use streaming_bot.Storage.Contents
use streaming_bot.Storage.Purchases
use streaming_bot.Platform.Strings.{trim_space}
use streaming_bot.App.StartPurchase
use streaming_bot.App.StartPurchase.{Invoice}
use streaming_bot.App.ConfirmPayment
use streaming_bot.Telegram.Api.{SuccessfulPayment, PreCheckoutQuery, reply}

-- The text of the item, or a general one where there is no item or its text is blank.
abbrev text_or : Text → Text → Text
text_or fallback s = if text_eq (trim_space s) [] then fallback else s

abbrev pub invoice_title : Result (Option Content) → Text
invoice_title (ok (some item)) = text_or (text "Streaming Content") item.title
invoice_title (ok none) = text "Streaming Content"
invoice_title (err _) = text "Streaming Content"

abbrev pub invoice_description : Result (Option Content) → Text
invoice_description (ok (some item)) = text_or (text "Access to purchased content") item.description
invoice_description (ok none) = text "Access to purchased content"
invoice_description (err _) = text "Access to purchased content"

-- The invoice of a purchase: its payload, and its price in Stars.
abbrev pub purchase_invoice : ℤ → Result (Option Content) → Invoice → InvoiceMessage
purchase_invoice chat item res = record {
  chat_id = chat;
  title = invoice_title item;
  description = invoice_description item;
  payload = res.invoice_payload;
  start_parameter = text "purchase_" ++ res.purchase_id;
  currency = text "XTR";
  label = invoice_title item;
  amount = res.amount_stars;
}

-- What is said after the invoice went out, or did not.
abbrev pub after_invoice : ℤ → Text → Result (Unit {0}) → Io Unit
after_invoice chat purchase_id (ok _) = reply chat (
    text "Purchase created.\nPurchase ID: "
    ++ (purchase_id ++ text "\nPlease complete Telegram Stars payment."))
after_invoice chat purchase_id (err _) =
    reply chat (text "Purchase created, but invoice send failed. Purchase ID: " ++ purchase_id)

-- From the second lookup of the item on.
unfoldable pub send_invoice : ℤ → Text → Invoice → Io Unit
send_invoice chat content_id res = do
  item ← attempt (Contents.get_by_id content_id)
  sent ← attempt (send (invoice (purchase_invoice chat item res)))
  after_invoice chat res.purchase_id sent

abbrev pub after_start : ℤ → Text → Result Invoice → Io Unit
after_start chat content_id (ok res) = send_invoice chat content_id res
after_start chat content_id (err _) =
    reply chat (text "Could not start purchase. Check content ID.")

-- `b.startPurchase`
unfoldable pub start_purchase : ℤ → ℤ → Text → Io Unit
start_purchase chat user content_id = do
  res ← attempt (StartPurchase.handle (record { user_id = user; content_id = content_id }))
  after_start chat content_id res

-- `%s` of the currency and of the charge, with no escapes.
abbrev pub raw_payment : SuccessfulPayment → Text
raw_payment sp =
    text "{\"currency\":\""
    ++ (sp.currency
        ++ (text "\",\"telegram_payment_charge_id\":\"" ++ (sp.charge_id ++ text "\"}")))

abbrev pub after_payment : ℤ → Result (Unit {0}) → Io Unit
after_payment chat (ok _) = reply chat (text "Payment received. Preparing your access link...")
after_payment chat (err _) =
    reply chat (text "Payment received, but confirmation failed. Please contact support.")

-- A message that reports a payment.
unfoldable pub successful_payment : ℤ → SuccessfulPayment → Io Unit
successful_payment chat sp = do
  now ← time_now
  res ← attempt (
      ConfirmPayment.handle (record {
        charge_id = sp.charge_id;
        amount_stars = sp.total_amount;
        invoice_payload = sp.invoice_payload;
        raw_payload = raw_payment sp;
        occurred_at = now;
      }))
  after_payment chat res

-- `UnixNano()`: the clock counts microseconds.
abbrev pub force_charge : ℤ → ℕ → Text
force_charge user now = text "forcebuy-" ++ (decimal_ℤ user ++ (text "-" ++ decimal (now * 1000)))

-- `b.forceBuy`
unfoldable pub force_buy : ℤ → ℤ → Text → Io Unit
force_buy chat user content_id = do
  res ← StartPurchase.handle (record { user_id = user; content_id = content_id })
  now ← time_now
  occurred_at ← time_now
  ConfirmPayment.handle (record {
    charge_id = force_charge user now;
    amount_stars = res.amount_stars;
    invoice_payload = res.invoice_payload;
    raw_payload = text "{\"source\":\"forcebuy\"}";
    occurred_at = occurred_at;
  })
  reply chat (text "Force purchase created and paid.\nPurchase ID: " ++ res.purchase_id)

unfoldable pub answer : PreCheckoutQuery → Bool → Text → Io Unit
answer q good reason = ignore (send (pre_checkout_answer q.id good reason))

-- From the lookup of the purchase on.
unfoldable pub answer_for : PreCheckoutQuery → Result (Option Purchase) → Io Unit
answer_for q (ok (some p)) =
    if not (int_eq p.user_id q.sender)
    then answer q false (text "Invoice owner mismatch")
    else if not (int_eq p.stars_amount q.total_amount)
    then answer q false (text "Price mismatch")
    else answer q true []
answer_for q (ok none) = answer q false (text "Invoice not found")
answer_for q (err _) = answer q false (text "Invoice not found")

-- `b.handlePreCheckout`
unfoldable pub handle_pre_checkout : PreCheckoutQuery → Io Unit
handle_pre_checkout q =
    if not (text_eq q.currency (text "XTR"))
    then answer q false (text "Unsupported currency")
    else attempt (Purchases.get_by_payload q.invoice_payload) >>= λ found. answer_for q found
