-- ===== src/Telegram/Checkout/Approval.antt =====
-- When a payment may go on.
use streaming_bot.Prelude.{
  Text, text, text_eq, [], ◌∷◌, ◌++◌, Option, none, some, Bool, true, false, ◌&&◌, find, ◌≡◌, arith,
  Text-discrete, if◌then◌else◌,
}
use streaming_bot.Prelude.Int.{ℤ, int_eq}
use streaming_bot.Prelude.Tables.{find-append, find-none}
use streaming_bot.Exec.{Result, ok, ◌>>=◌, gets, attempt, ignore}
use streaming_bot.World.{World, PurchaseRow, InvoiceMessage, pre_checkout_answer, send, sql}
use streaming_bot.Domain.Content.{Content}
use streaming_bot.Storage.Purchases
use streaming_bot.Storage.Purchases.{select_one, of_row}
use streaming_bot.App.StartPurchase
use streaming_bot.App.StartPurchase.{Invoice}
use streaming_bot.App.StartPurchase.Outcome.{pending_row, invoice_is_offered, payload_is_new}
use streaming_bot.Telegram.Api.{PreCheckoutQuery}
use streaming_bot.Telegram.Checkout.{answer, answer_for, handle_pre_checkout, purchase_invoice}

-- A row that the query may pay for.
abbrev fits : PreCheckoutQuery → PurchaseRow → Bool
fits q r = int_eq r.user_id q.sender && int_eq r.stars_amount q.total_amount

-- In Stars, by the owner of the purchase that the payload names, at its price.
abbrev pub may_pay : PreCheckoutQuery → World → Bool
may_pay q w =
    text_eq q.currency (text "XTR")
    && elim (find (λ r. text_eq r.telegram_payload q.invoice_payload) w.db.purchases) [
      | none ↦ false
      | some r ↦ fits q r
    ]

-- What is said of a refusal.
abbrev refusal : PreCheckoutQuery → World → Text
refusal q w =
    if text_eq q.currency (text "XTR")
    then elim (find (λ r. text_eq r.telegram_payload q.invoice_payload) w.db.purchases) [
      | none ↦ text "Invoice not found"
      | some r ↦
          if int_eq r.user_id q.sender
          then (if int_eq r.stars_amount q.total_amount then [] else text "Price mismatch")
          else text "Invoice owner mismatch"
    ]
    else text "Unsupported currency"

-- With no fault of the services, a query before the checkout is answered once, and nothing else
-- changes. The answer is that the payment may go on exactly when it is in Telegram Stars, the first
-- row with the query's payload is a purchase of the user who pays, and the amount is its price. The
-- status of the purchase has no say: one that is paid already may be paid for again.
pub handle_pre_checkout_lem :
    (q : PreCheckoutQuery) (w : World)
    → w.net ≡ []
    → (reason : Text) × (handle_pre_checkout q w
        ≡ (ok tt, record w { sent = w.sent ++ pre_checkout_answer q.id (may_pay q w) reason ∷ [] }))
unfolding handle_pre_checkout answer_for answer ignore send Purchases.get_by_payload select_one
    of_row sql gets attempt ◌>>=◌
handle_pre_checkout_lem q w calm = (refusal q w, ground arith)

module _ (cmd : StartPurchase.Command) (w : World) (i : Invoice)
    (started : (StartPurchase.handle cmd w).0 ≡ ok i) where
  -- The row of the purchase is the one that the payload finds.
  pub started-found :
      find
        (λ r. text_eq r.telegram_payload i.invoice_payload)
        (StartPurchase.handle cmd w).1.db.purchases
      ≡ some (pending_row cmd i w.clock)
  unfolding find Text-discrete
  started-found = ground (
    arith,
    (invoice_is_offered cmd w i started).2,
    payload_is_new cmd w i started,
    find-none (λ r. text_eq r.telegram_payload i.invoice_payload) w.db.purchases,
    find-append (λ r. text_eq r.telegram_payload i.invoice_payload) w.db.purchases
        (pending_row cmd i w.clock),
  )

  abbrev pub paying : InvoiceMessage → Text → PreCheckoutQuery
  paying m id = record {
    id = id;
    sender = cmd.user_id;
    currency = m.currency;
    total_amount = m.amount;
    invoice_payload = m.payload;
  }

  may_pay-started :
      (chat : ℤ) (item : Result (Option Content)) (id : Text)
      → may_pay (paying (purchase_invoice chat item i) id) (StartPurchase.handle cmd w).1 ≡ true
  unfolding Text-discrete
  may_pay-started chat item id = ground (arith, started-found)

  -- The query that pays an invoice of the bot is approved: whatever the item that the bot finds for
  -- the invoice's title, a purchase that was just started, by whatever calls, is let through for
  -- the user who started it, with the payload, the currency and the amount of its invoice. The
  -- services have no fault to come when the query is answered.
  pub invoice_is_approved :
      (chat : ℤ) (item : Result (Option Content)) (id : Text)
      → (StartPurchase.handle cmd w).1.net ≡ []
      → let v = (StartPurchase.handle cmd w).1 in
        let m = purchase_invoice chat item i in
        (reason : Text) × (handle_pre_checkout (paying m id) v
          ≡ (ok tt, record v { sent = v.sent ++ pre_checkout_answer id true reason ∷ [] }))
  invoice_is_approved chat item id calm =
      let q = paying (purchase_invoice chat item i) id in
      rw (← may_pay-started chat item id)
        (handle_pre_checkout_lem q (StartPurchase.handle cmd w).1 calm)
