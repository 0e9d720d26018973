-- ===== src/Telegram/Checkout/Forced.antt =====
-- What forcebuy comes to.
use streaming_bot.Prelude.{
  ℕ, Text, text, text_eq, Text-discrete, List, [], ◌∷◌, some, true, false, not, ◌&&◌, any, ◌≡◌, ◌≢◌,
  refl, arith,
}
use streaming_bot.Prelude.Int.{ℤ, is_int4}
use streaming_bot.Prelude.Tables.{any-append}
use streaming_bot.Exec.{ok, ◌>>=◌, ignore}
use streaming_bot.World.{World, PurchaseRow, time_now}
use streaming_bot.Domain.Payment.{Event}
use streaming_bot.Domain.Purchase.{parse_status}
use streaming_bot.Storage.Purchases.{same_charge, clashes, to_row, of_row, nullable_string}
use streaming_bot.Storage.Payments.{processed}
use streaming_bot.Storage.Outbox.{event_id}
use streaming_bot.App.StartPurchase
use streaming_bot.App.StartPurchase.{Command, Invoice}
use streaming_bot.App.StartPurchase.Outcome.{pending_row, invoice_is_offered, payload_is_new}
use streaming_bot.App.ConfirmPayment
use streaming_bot.App.ConfirmPayment.Update.{paid_purchase, IsDue, IsAlone}
use streaming_bot.App.ConfirmPayment.Outcome.{HasConfirmed, confirm_effects}
use streaming_bot.Telegram.Api.{reply}
use streaming_bot.Telegram.Api.Laws.{reply-db}
use streaming_bot.Telegram.Checkout.{force_charge, force_buy}
use streaming_bot.Telegram.Checkout.Approval.{started-found}

-- The payment that forcebuy makes up.
abbrev pub forced_event : ℤ → Invoice → ℕ → Event
forced_event user i now = record {
  charge_id = force_charge user now;
  amount_stars = i.amount_stars;
  invoice_payload = i.invoice_payload;
  raw_payload = text "{\"source\":\"forcebuy\"}";
  occurred_at = now;
}

-- No purchase of this payload and none of this charge is in the way of the paid row.
no_clash :
    (e : Event) (r : PurchaseRow) (now : ℕ) (l : List PurchaseRow)
    → any (λ q. text_eq q.telegram_payload r.telegram_payload) l ≡ false
    → any (λ q. same_charge q.telegram_charge_id (some e.charge_id)) l ≡ false
    → e.charge_id ≢ []
    → any (λ q. not (text_eq q.id r.id) && clashes (to_row (paid_purchase e now (of_row r))) q) l
      ≡ false
unfolding any to_row of_row nullable_string
no_clash e r now [] p c g = refl
no_clash e r now (q ∷ l) p c g = ground (arith, no_clash e r now l)

module _ (user : ℤ) (id : Text) (w : World) (i : Invoice) where
  abbrev cmd : Command
  cmd = record { user_id = user; content_id = id }

  abbrev v : World
  v = (StartPurchase.handle cmd w).1

  abbrev event : Event
  event = forced_event user i v.clock

  abbrev row : PurchaseRow
  row = pending_row cmd i w.clock

  module _ (started : (StartPurchase.handle cmd w).0 ≡ ok i) (fits : is_int4 i.amount_stars ≡ true)
      (first : processed event.charge_id v.db ≡ false)
      (charged : any (λ q. same_charge q.telegram_charge_id (some event.charge_id)) w.db.purchases
        ≡ false) where
    due : IsDue event row v.db
    unfolding is_int4 of_row parse_status Text-discrete
    due = record {
      given = λ e. cc;
      first = first;
      found = started-found cmd w i started;
      waits = refl;
      counted = refl;
      fits = fits;
    }

    alone : IsAlone event row v.clock v.db
    alone = ground (
      arith,
      (invoice_is_offered cmd w i started).2,
      no_clash event row v.clock w.db.purchases (payload_is_new cmd w i started) charged (λ e. cc),
      any-append
          (λ q.
            not (text_eq q.id row.id)
            && clashes (to_row (paid_purchase event v.clock (of_row row))) q)
          w.db.purchases row,
    )

    module _ (calm : v.net ≡ [])
        (fresh : any (λ e. text_eq e.id (event_id v.clock i.purchase_id)) v.db.outbox_events
          ≡ false) where
      confirmed :
          ((ConfirmPayment.handle event v).0 ≡ ok tt)
          × HasConfirmed event row v.clock v.db (ConfirmPayment.handle event v).1.db
      confirmed = confirm_effects event row v calm due alone fresh

      then_reply :
          (chat : ℤ)
          → ((force_buy chat user id w).0 ≡ ok tt)
            × ((force_buy chat user id w).1.db ≡ (ConfirmPayment.handle event v).1.db)
      unfolding force_buy time_now reply ignore ◌>>=◌
      then_reply chat = rw (started, confirmed.0) (refl, reply-db chat _ _)

-- A purchase by forcebuy is paid without a payment. Where the item can be bought and the payment
-- that the bot makes up for it is a first one (its amount fits the column, its charge is not recorded as processed and no row
-- has it, the outbox has no event of this id, and the services have no fault left), the bot reports
-- success; the row of the new purchase is paid with that charge, the charge is recorded as
-- processed, the outbox gets exactly one confirmation of the purchase, and no grant is made.
pub force_buy_effects :
    (chat user : ℤ) (id : Text) (w : World) (i : Invoice)
    → (StartPurchase.handle (record { user_id = user; content_id = id }) w).0 ≡ ok i
    → let v = (StartPurchase.handle (record { user_id = user; content_id = id }) w).1 in
      let e = forced_event user i v.clock in
      let r = pending_row (record { user_id = user; content_id = id }) i w.clock in
      is_int4 i.amount_stars ≡ true
      → processed e.charge_id v.db ≡ false
      → any (λ q. same_charge q.telegram_charge_id (some e.charge_id)) w.db.purchases ≡ false
      → v.net ≡ []
      → any (λ q. text_eq q.id (event_id v.clock i.purchase_id)) v.db.outbox_events ≡ false
      → ((force_buy chat user id w).0 ≡ ok tt)
        × HasConfirmed e r v.clock v.db (force_buy chat user id w).1.db
force_buy_effects chat user id w i started fits first charged calm fresh =
    let reply = then_reply user id w i started fits first charged calm fresh chat in
    (reply.0, rw reply.1 (confirmed user id w i started fits first charged calm fresh).1)
